-- ===== src/NetQueue/Order.antt =====
-- Who a free slot goes to: the order of the grants in netq.go.
use mathlib.Core.List.{append-nil, append_assoc}
use vidya_god_ipfs.Prelude.{
  ℕ, zero, suc, ◌+◌, ◌-◌, ◌≤◌, ◌<◌, ◌≡◌, refl, Bool, true, false, some, List, [], ◌∷◌, ◌++◌, arith,
  is_empty, length, if◌then◌else◌, Option-cases, inl, inr, sym, ◌∙◌, ap,
}
use vidya_god_ipfs.NetQueue.{NetQueue, grant_fg, turn, grant_loop, grant, acquire, release, slot}
use vidya_god_ipfs.NetQueue.Invariant.{IsValid, grant_loop-stop, grant_loop-go, Holder}

-- The waiters that went, foreground and background, and what is left of the two lines.
pub record Went (q t : NetQueue) : Type 0 where
  pub fg_went : List ℕ
  pub bg_went : List ℕ
  pub fg_line : q.fg ≡ fg_went ++ t.fg
  pub bg_line : q.bg ≡ bg_went ++ t.bg
  pub order : t.granted ≡ q.granted ++ (fg_went ++ bg_went)
  pub count : t.active ≡ q.active + length fg_went + length bg_went
  pub fg_count : t.fg_active ≡ q.fg_active + length fg_went
  pub fg_first : is_empty bg_went ≡ false → is_empty t.fg ≡ true

Went-refl : (q : NetQueue) → Went q q
Went-refl q = record {
  fg_went = [];
  bg_went = [];
  fg_line = refl;
  bg_line = refl;
  order = sym (append-nil q.granted);
  count = omega arith;
  fg_count = omega arith;
  fg_first = λ h. cc;
}

append-eq-nil {ℓ} :
    {A : Type ℓ} (xs ys : List A) → [] ≡ xs ++ ys → (is_empty xs ≡ true) × (is_empty ys ≡ true)
append-eq-nil [] [] h = (refl, refl)
append-eq-nil [] (y ∷ ys) h = cc
append-eq-nil (x ∷ xs) ys h = cc

is_empty-eq_nil {ℓ} : {A : Type ℓ} (xs : List A) → is_empty xs ≡ true → xs ≡ []
is_empty-eq_nil [] h = refl
is_empty-eq_nil (x ∷ xs) h = cc

Went-turn :
    (fg bg : List ℕ) (q t u : NetQueue)
    → q.fg ≡ fg
    → q.bg ≡ bg
    → turn fg bg q ≡ some t
    → Went t u
    → Went q u
unfolding turn
Went-turn (ch ∷ rest) bg q t u ef eb e w = record {
  fg_went = ch ∷ w.fg_went;
  bg_went = w.bg_went;
  fg_line = let r : rest ≡ t.fg = ground arith in ef ∙ ap (λ (l : List ℕ). ch ∷ l) (r ∙ w.fg_line);
  bg_line = let r : q.bg ≡ t.bg = ground arith in r ∙ w.bg_line;
  order =
      let r : t.granted ≡ q.granted ++ (ch ∷ []) = ground arith in w.order ∙ rw (r, append_assoc);
  count = let r : t.active ≡ q.active + 1 = ground arith in omega (arith, w.count);
  fg_count = let r : t.fg_active ≡ q.fg_active + 1 = ground arith in omega (arith, w.fg_count);
  fg_first = w.fg_first;
}
Went-turn [] (ch ∷ rest) q t u ef eb e w =
    let none_left = append-eq-nil w.fg_went u.fg (ground (arith, w.fg_line)) in
    let no_fg = is_empty-eq_nil w.fg_went none_left.0 in
    record {
      fg_went = [];
      bg_went = ch ∷ w.bg_went;
      fg_line = ef ∙ sym (is_empty-eq_nil u.fg none_left.1);
      bg_line =
          let r : rest ≡ t.bg = ground arith in eb ∙ ap (λ (l : List ℕ). ch ∷ l) (r ∙ w.bg_line);
      order =
          let r : t.granted ≡ q.granted ++ (ch ∷ []) = ground arith in
          w.order ∙ rw (r, no_fg, append_assoc);
      count =
          let r : t.active ≡ q.active + 1 = ground arith in
          omega (arith, w.count, ap (length {A = ℕ}) no_fg);
      fg_count =
          let r : t.fg_active ≡ q.fg_active = ground arith in
          omega (arith, w.fg_count, ap (length {A = ℕ}) no_fg);
      fg_first = λ h. none_left.1;
    }
Went-turn [] [] q t u ef eb e w = cc

grant_loop-Went : (f : ℕ) (q : NetQueue) → Went q (grant_loop f q)
grant_loop-Went zero q = unfold grant_loop in Went-refl q
grant_loop-Went (suc f) q = elim (Option-cases (turn q.fg q.bg q)) [
  | inl e ↦ rw (grant_loop-stop f q e) (Went-refl q)
  | inr (t, e) ↦
      rw (grant_loop-go f q t e)
        (Went-turn q.fg q.bg q t (grant_loop f t) refl refl e (grant_loop-Went f t))
]

-- The grants take the heads of both lines in order, every foreground one before any background
-- one, and a background waiter goes only when no foreground waiter is left.
pub grant-Went : (q : NetQueue) → Went q (grant q)
unfolding grant
grant-Went q = grant_loop-Went (q.slots - q.active) q

grant-one :
    (ch : ℕ) (rest : List ℕ) (q : NetQueue)
    → q.slots ≡ suc q.active
    → q.fg ≡ ch ∷ rest
    → grant q ≡ grant_fg ch rest q
unfolding grant grant_loop turn
grant-one ch rest q e f =
    let one : q.slots - q.active ≡ 1 = omega arith in rw (one, grant_loop, f, turn)

-- With a waiter in the foreground line every slot is in use, so a release frees one.
released_slot :
    (fg : Bool) (q : NetQueue)
    → IsValid q
    → Holder fg q
    → q.active ≤ q.slots
    → is_empty q.fg ≡ false
    → q.slots ≡ suc (q.active - 1)
released_slot fg q v h b e = ground arith

-- With a foreground waiter in line and no more slots in use than there are, a released slot of
-- either kind goes to the head of the foreground line, to it alone, and stays in use.
pub release-hands_over :
    (fg : Bool) (ch : ℕ) (rest : List ℕ) (q : NetQueue)
    → IsValid q
    → Holder fg q
    → q.active ≤ q.slots
    → q.fg ≡ ch ∷ rest
    → ((release fg q).fg ≡ rest)
      × ((release fg q).bg ≡ q.bg)
      × ((release fg q).granted ≡ q.granted ++ ch ∷ [])
      × ((release fg q).active ≡ q.active)
unfolding release
release-hands_over fg ch rest q v h b e =
    let r : NetQueue = record q {
      active = q.active - 1;
      fg_active = if fg then q.fg_active - 1 else q.fg_active;
    } in
    let full : q.slots ≡ suc (q.active - 1) = released_slot fg q v h b (rw e refl) in
    ground (arith, grant-one ch rest r full e)

-- A background job takes a free slot at once only when nobody at all is waiting for one.
pub acquire-overtakes_nobody :
    (q : NetQueue)
    → IsValid q
    → (acquire false q).1 ≡ slot
    → (is_empty q.fg ≡ true) × (is_empty q.bg ≡ true)
unfolding acquire
acquire-overtakes_nobody q v h = ground arith

-- A foreground job gets a slot at once exactly when one is free; else it is last in its line.
pub acquire_fg_exact :
    (q : NetQueue)
    → ((acquire true q).1 ≡ slot → q.active < q.slots)
      × (q.active < q.slots → (acquire true q).1 ≡ slot)
      × (q.slots ≤ q.active → (acquire true q).0.fg ≡ q.fg ++ q.next_channel ∷ [])
unfolding acquire
acquire_fg_exact q = ground arith
