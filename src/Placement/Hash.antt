-- ===== src/Placement/Hash.antt =====
-- hashScore of internal/gnmic/placement_blrh.go and hash32 of internal/gnmic/plan.go: FNV-1a.
use Prim.Native.Nat.{bit_xor}
use gnmic_operator.Prelude.{ℕ, ◌*◌, ◌%◌, ◌^◌, ◌≡◌, refl, String, List, [], ◌∷◌}
use gnmic_operator.Prelude.Text.{bytes, itoa, ◌<>◌}

-- The loop of hash/fnv over the bytes, at a width in bits.
fnv : ℕ → ℕ → ℕ → List ℕ → ℕ
fnv width prime h [] = h
fnv width prime h (b ∷ bs) = fnv width prime (bit_xor h b * prime % 2 ^ width) bs

unfoldable pub hash_score : String → ℕ → ℕ
unfolding fnv bytes itoa
hash_score target_nn pod_index =
    fnv 64 1099511628211 14695981039346656037 (bytes (target_nn <> ":" <> itoa pod_index))

unfoldable pub hash32 : String → ℕ
unfolding fnv bytes
hash32 s = fnv 32 16777619 2166136261 (bytes s)

-- The published value of FNV-1a, 64 bits, for "a".
fnv_a : fnv 64 1099511628211 14695981039346656037 (bytes "a") ≡ 0xaf63dc4c8601ec8c
unfolding fnv bytes
fnv_a = refl

hash32_a : hash32 "a" ≡ 0xe40c292c
unfolding hash32
hash32_a = refl
