-- ===== src/Overlay/Queue.antt =====
-- The queues of the stream fallback in overlay.go.
use vidya_god_ipfs.Prelude.{
  ℕ, zero, suc, ◌+◌, ◌-◌, ◌≤◌, ◌<◌, sym, ap, ◌∙◌, ◌≡◌, refl, List, [], ◌∷◌, ◌++◌, arith, ltb, ◌==◌,
  length, drop, if◌then◌else◌, get-put, length-append, length-drop, drop-drop, inl, inr, Bool-cases,
}
use vidya_god_ipfs.Overlay.Service.{Overlay}
use vidya_god_ipfs.Overlay.Send.{push, queue_size, queue_of, enqueue_stream}

append_assoc {ℓ} : {A : Type ℓ} (xs ys zs : List A) → (xs ++ ys) ++ zs ≡ xs ++ (ys ++ zs)
append_assoc [] ys zs = refl
append_assoc (x ∷ xs) ys zs = rw (append_assoc xs ys zs)

append-nil {ℓ} : {A : Type ℓ} (xs : List A) → xs ++ [] ≡ xs
append-nil [] = refl
append-nil (x ∷ xs) = rw (append-nil xs)

drop_one-append {ℓ} :
    {A : Type ℓ} (xs ys : List A) → 0 < length xs → drop 1 (xs ++ ys) ≡ drop 1 xs ++ ys
drop_one-append [] ys h = absurd (omega arith)
drop_one-append (x ∷ xs) ys h = refl

drop_within {ℓ} :
    {A : Type ℓ} (n : ℕ) (xs ys : List A) → n ≤ length xs → drop n (xs ++ ys) ≡ drop n xs ++ ys
drop_within zero xs ys h = refl
drop_within (suc n) [] ys h = absurd (omega arith)
drop_within (suc n) (x ∷ xs) ys h = drop_within n xs ys (omega arith)

-- Packets queued one after the other, with nothing taken in between.
unfoldable pub push_all : List (List ℕ) → List (List ℕ) → List (List ℕ)
push_all [] q = q
push_all (p ∷ ps) q = push_all ps (push p q)

push-room : (p : List ℕ) (q : List (List ℕ)) → length q < queue_size → push p q ≡ q ++ p ∷ []
unfolding push
push-room p q h = ground arith

push-full : (p : List ℕ) (q : List (List ℕ)) → queue_size ≤ length q → push p q ≡ drop 1 q ++ p ∷ []
unfolding push
push-full p q h = ground arith

pub length-push :
    (p : List ℕ) (q : List (List ℕ)) → length q ≤ queue_size → length (push p q) ≤ queue_size
unfolding push
length-push p [] h = omega arith
length-push p (x ∷ q) h = ground (arith, length-append q (p ∷ []))

-- One packet: a full queue loses its head.
push-drop :
    (p : List ℕ) (q : List (List ℕ))
    → length q ≤ queue_size
    → push p q ≡ drop (suc (length q) - queue_size) (q ++ p ∷ [])
push-drop p q h = elim (Bool-cases (ltb (length q) queue_size)) [
  | inl room ↦
      let e : suc (length q) - queue_size ≡ 0 = ground arith in rw e (push-room p q (ground arith))
  | inr full ↦
      let e : suc (length q) - queue_size ≡ 1 = ground arith in
      rw e (push-full p q (ground arith) ∙ sym (drop_one-append q (p ∷ []) (ground arith)))
]

-- Only the freshest packets are kept.
pub push_all-freshest :
    (ps q : List (List ℕ))
    → length q ≤ queue_size
    → push_all ps q ≡ drop (length q + length ps - queue_size) (q ++ ps)
unfolding push_all
push_all-freshest [] q h =
    let e : length q + 0 - queue_size ≡ 0 = omega arith in rw e (sym (append-nil q))
push_all-freshest (p ∷ ps) q h =
    let d = suc (length q) - queue_size in
    let len = length-drop d (q ++ p ∷ []) in
    let n = length-append q (p ∷ []) in
    let split : drop d (q ++ p ∷ []) ++ ps ≡ drop d (q ++ p ∷ ps) =
      sym (drop_within d (q ++ p ∷ []) ps (omega arith))
      ∙ ap (drop d) (append_assoc q (p ∷ []) ps) in
    let all = push_all-freshest ps (push p q) (length-push p q h) in
    let k = length (push p q) + length ps - queue_size in
    let is = push-drop p q h in
    let whole : push p q ++ ps ≡ drop d (q ++ p ∷ ps) = rw is split in
    let size : length (push p q) ≡ length (q ++ p ∷ []) - d = ap length is ∙ len in
    let e : d + k ≡ length q + suc (length ps) - queue_size = omega arith in
    let last = drop-drop d k (q ++ p ∷ ps) in cc

unfoldable pub enqueue_all : ℕ → List (List ℕ) → Overlay → Overlay
enqueue_all pid [] o = o
enqueue_all pid (p ∷ ps) o = enqueue_all pid ps (enqueue_stream pid p o)

pub queue_of-enqueue_stream :
    (pid j : ℕ) (p : List ℕ) (o : Overlay)
    → queue_of j (enqueue_stream pid p o)
      ≡ (if pid == j then push p (queue_of pid o) else queue_of j o)
unfolding enqueue_stream
queue_of-enqueue_stream pid j p o =
    ground (arith, get-put pid j (push p (queue_of pid o)) o.senders)

queue_of-enqueue_all :
    (pid : ℕ) (ps : List (List ℕ)) (o : Overlay)
    → queue_of pid (enqueue_all pid ps o) ≡ push_all ps (queue_of pid o)
unfolding enqueue_all push_all
queue_of-enqueue_all pid [] o = refl
queue_of-enqueue_all pid (p ∷ ps) o =
    let all = queue_of-enqueue_all pid ps (enqueue_stream pid p o) in
    let one : queue_of pid (enqueue_stream pid p o) ≡ push p (queue_of pid o) =
      ground (arith, queue_of-enqueue_stream pid pid p o) in
    all ∙ ap (push_all ps) one

-- Packets that a peer's sender has not taken: its queue holds the freshest of them in order, as many
-- as fit; the oldest are lost.
pub enqueue_all-freshest :
    (pid : ℕ) (ps : List (List ℕ)) (o : Overlay)
    → length (queue_of pid o) ≤ queue_size
    → queue_of pid (enqueue_all pid ps o)
      ≡ drop (length (queue_of pid o) + length ps - queue_size) (queue_of pid o ++ ps)
enqueue_all-freshest pid ps o h =
    queue_of-enqueue_all pid ps o ∙ push_all-freshest ps (queue_of pid o) h
