-- ===== src/Tests/GatewayRanges.antt =====
-- The ranges of gateway.go for a file with two holes.
use vidya_god_ipfs.Prelude.{List, [], ◌∷◌, arith, inl, inr}
use vidya_god_ipfs.GatewayRanges.{ByteRange, gateway_ranges}
use vidya_god_ipfs.GatewayRanges.Cover.{Covers, gateway_ranges-Covers}

abbrev holes : List ByteRange
holes = record { from = 100; to = 200 } ∷ record { from = 5_000_000; to = 5_000_100 } ∷ []

gateway_ranges-Covers_example : Covers 5_000_050 (gateway_ranges holes)
gateway_ranges-Covers_example =
    gateway_ranges-Covers 5_000_050 holes (omega arith, omega arith, omega arith)
      (inr (inl (omega arith, omega arith)))
