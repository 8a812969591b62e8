-- ===== src/State/Started.antt =====
-- What the loop of startStreams in internal/controller/targetstate_controller.go starts: the keys of the
-- pods, written out, and the contexts they are given.
use text.Mathlib.TextLemmas.{append_cancel_left}
use gnmic_operator.Prelude.{
  ℕ, zero, suc, ◌+◌, ◌<◌, String, Bool-cases, false, some, List, [], ◌∷◌, ◌==◌, string_eq, nat_eq,
  contains, ◌≡◌, refl, sym, ap, ◌∙◌, arith, inl, inr, ◌&&◌, ◌||◌, ltb, leb,
}
use gnmic_operator.Prelude.Dict.{lookup, lookup-insert, lookup-insert_self}
use gnmic_operator.Prelude.Text.{◌<>◌, itoa}
use gnmic_operator.Prelude.Parse.{read_digits, read_digits-itoa}
use gnmic_operator.State.Streams.{Streams, start_stream, start_streams}

-- The keys of a cluster are "namespace/name/" and the index of a pod.
abbrev pub cluster_prefix : String → String → String
cluster_prefix namespace name = namespace <> "/" <> name <> "/"

abbrev pub pod_key : String → String → ℕ → String
pod_key namespace name p = cluster_prefix namespace name <> itoa p

-- The keys of `n` pods from `i` on.
abbrev pub pod_keys : String → String → ℕ → ℕ → List String
pod_keys namespace name i zero = []
pod_keys namespace name i (suc n) = pod_key namespace name i ∷ pod_keys namespace name (suc i) n

itoa_injective : (p q : ℕ) → itoa p ≡ itoa q → p ≡ q
itoa_injective p q h =
    let read : some p ≡ some q =
      sym (read_digits-itoa p) ∙ ap (read_digits 0) h ∙ read_digits-itoa q in
    ground arith

pod_key_injective :
    (namespace name : String) (p q : ℕ)
    → pod_key namespace name p ≡ pod_key namespace name q
    → p ≡ q
pod_key_injective namespace name p q h =
    itoa_injective p q (append_cancel_left (cluster_prefix namespace name) (itoa p) (itoa q) h)

contains-pod_keys :
    (namespace name : String) (i n p : ℕ)
    → contains (pod_keys namespace name i n) (pod_key namespace name p) ≡ (leb i p && ltb p (i + n))
contains-pod_keys ns name i zero p = ground arith
contains-pod_keys ns name i (suc n) p = elim (Bool-cases (pod_key ns name i == pod_key ns name p)) [
  | inl same ↦
      let e : i ≡ p =
        pod_key_injective ns name i p
          ((string_eq.agree_iff (pod_key ns name i) (pod_key ns name p)).0 same) in
      rw same (ground arith)
  | inr other ↦
      let distinct_pods : i ≡ p → ⊥ = λ e. ground (
        arith,
        ap (pod_key ns name) e,
        string_eq.agree_iff (pod_key ns name i) (pod_key ns name p),
      ) in
      rw other (ground (arith, contains-pod_keys ns name (suc i) n p, distinct_pods))
]

module _ {W : Type 0} where
  -- A key that is not of these pods keeps its context.
  pub lookup-start_streams_other :
      (namespace name j : String) (i n : ℕ) (s : Streams W)
      → contains (pod_keys namespace name i n) j ≡ false
      → lookup j (start_streams namespace name i n s).streams ≡ lookup j s.streams
  unfolding start_streams
  lookup-start_streams_other ns name j i zero s h = refl
  lookup-start_streams_other ns name j i (suc n) s h = ground (
    arith,
    lookup-start_streams_other ns name j (suc i) n (start_stream (pod_key ns name i) s),
    lookup-insert (pod_key ns name i) j s.next s.streams,
  )

  -- The pod `i + k` has the context `k` after the next one.
  pub lookup-start_streams_pod :
      (namespace name : String) (i n k p c : ℕ) (s : Streams W)
      → i + k ≡ p
      → s.next + k ≡ c
      → k < n
      → lookup (pod_key namespace name p) (start_streams namespace name i n s).streams ≡ some c
  unfolding start_streams
  lookup-start_streams_pod ns name i zero k p c s e f h = absurd (omega arith)
  lookup-start_streams_pod ns name i (suc n) zero p c s e f h =
      let e' : i ≡ p = omega arith in
      let f' : s.next ≡ c = omega arith in
      rw (← e', ← f')
        (lookup-start_streams_other ns name (pod_key ns name i) (suc i) n
            (start_stream (pod_key ns name i) s)
            (contains-pod_keys ns name (suc i) n i ∙ ground arith)
          ∙ lookup-insert_self (pod_key ns name i) s.next s.streams)
  lookup-start_streams_pod ns name i (suc n) (suc k) p c s e f h =
      lookup-start_streams_pod ns name (suc i) n k p c (start_stream (pod_key ns name i) s)
        (omega arith) (omega arith) (omega arith)

  -- The loop starts the next `n` contexts.
  pub contains-start_streams :
      (namespace name : String) (i n c : ℕ) (s : Streams W)
      → contains (start_streams namespace name i n s).live c
        ≡ ((leb s.next c && ltb c (s.next + n)) || contains s.live c)
  unfolding start_streams
  contains-start_streams ns name i zero c s = ground arith
  contains-start_streams ns name i (suc n) c s = ground (
    arith,
    contains-start_streams ns name (suc i) n c (start_stream (pod_key ns name i) s),
    nat_eq.agree_iff s.next c,
  )
