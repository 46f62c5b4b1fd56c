-- ===== src/Fcp/Match.antt =====
-- The matching of a response with the bytes that a transaction expects.
use snd_firewire_improve.Common.{
  ℕ, ◌/◌, ◌%◌, ◌^◌, ◌<◌, ◌≡◌, ◌⊎◌, ◌↔◌, refl, inl, inr, Bool, true, false, Bool-cases, not, ◌&&◌,
  ◌==◌, List, [], ◌∷◌, length, some, arith,
}
use native.Mathlib.Nat.{pow-suc}
use snd_firewire_improve.Fcp.{Transaction, differs, is_matching, is_matching_response}

-- The response has every byte whose bit is set in the mask, and it is the expected one.
abbrev pub HasBytes : List ℕ → List ℕ → ℕ → Type 0
HasBytes [] expected mask = mask ≡ 0
HasBytes (b ∷ bs) [] mask = mask ≡ 0
HasBytes (b ∷ bs) (q ∷ qs) mask = ((mask % 2 ≡ 0) ⊎ (b ≡ q)) × HasBytes bs qs (mask / 2)

zero_HasBytes : (bs qs : List ℕ) → HasBytes bs qs 0
zero_HasBytes [] qs = refl
zero_HasBytes (b ∷ bs) [] = refl
zero_HasBytes (b ∷ bs) (q ∷ qs) = (inl refl, zero_HasBytes bs qs)

is_matching_lem :
    (bs qs : List ℕ) (mask : ℕ)
    → 0 < length bs
    → mask < 2 ^ length qs
    → (d : Bool) × (is_matching bs qs mask ≡ some d) × ((d ≡ true) ↔ HasBytes bs qs mask)
unfolding is_matching differs
is_matching_lem [] qs mask p h = absurd (omega arith)
is_matching_lem (b ∷ []) [] mask p h = (true, ground arith, ((λ _. omega arith), (λ _. refl)))
is_matching_lem (b ∷ c ∷ bs) [] mask p h = (true, ground arith, ((λ _. omega arith), (λ _. refl)))
is_matching_lem (b ∷ []) (q ∷ qs) mask p h = elim (Bool-cases (mask % 2 == 1 && not (b == q))) [
  | inl d ↦ (false, rw d refl, ((λ x. cc), (λ x. ground arith)))
  | inr d ↦ (mask / 2 == 0, rw d refl, ((λ x. ground arith), (λ x. ground arith)))
]
is_matching_lem (b ∷ c ∷ bs) (q ∷ qs) mask p h = elim (Bool-cases (mask % 2 == 1 && not (b == q))) [
  | inl d ↦ (false, rw d refl, ((λ x. cc), (λ x. ground arith)))
  | inr d ↦ elim (Bool-cases (mask / 2 == 0)) [
    | inl z ↦
        let e : mask / 2 ≡ 0 = ground arith in
        (
          true,
          rw d (rw z refl),
          ((λ x. (ground arith, rw e (zero_HasBytes (c ∷ bs) qs))), (λ x. refl)),
        )
    | inr z ↦
        let (r, f, g) =
          is_matching_lem (c ∷ bs) qs (mask / 2) (omega arith)
            (omega (arith, pow-suc 2 (length qs))) in
        (r, rw d (rw z f), ((λ x. (ground arith, g.0 x)), (λ x. g.1 x.1)))
  ]
]

-- For a response of at least a byte and an expectation that covers the mask, the comparison reads
-- nothing outside the expectation, and it holds exactly when the response has every byte of the
-- mask as it is expected.
pub is_matching_response_lem :
    (t : Transaction) (response : List ℕ)
    → 0 < length response
    → t.response_match_bytes < 2 ^ length t.response_buffer
    → (d : Bool) × (is_matching_response t response ≡ some d)
      × ((d ≡ true) ↔ HasBytes response t.response_buffer t.response_match_bytes)
unfolding is_matching_response
is_matching_response_lem t response p h =
    is_matching_lem response t.response_buffer t.response_match_bytes p h
