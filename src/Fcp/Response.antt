-- ===== src/Fcp/Response.antt =====
-- A response reaches only the transactions that wait for it, and stays inside their buffers.
use snd_firewire_improve.Common.{
  ℕ, zero, suc, ◌+◌, ◌^◌, ◌≤◌, ◌<◌, ◌≡◌, ◌⊎◌, refl, inl, inr, true, Bool-cases, ◌&&◌, ◌==◌, bit_and,
  min, List, [], ◌∷◌, ◌++◌, length, length-append, length-take, take, drop, All, some, arith,
}
use snd_firewire_improve.Fcp.Match.{is_matching_response_lem}
use snd_firewire_improve.Fcp.{
  State, pending, complete, deferred, is_pending, is_from, Device, Transaction, copy, complete_with,
  respond, respond_all, fcp_response,
}

-- The response buffer holds what its size says, and the bytes that are compared.
pub record IsSound (t : Transaction) : Type 0 where
  pub size : t.response_size ≤ length t.response_buffer
  pub mask : t.response_match_bytes < 2 ^ length t.response_buffer

length-drop : (n : ℕ) (xs : List ℕ) → n ≤ length xs → n + length (drop n xs) ≡ length xs
length-drop zero xs h = omega arith
length-drop (suc n) [] h = absurd (omega arith)
length-drop (suc n) (x ∷ xs) h = omega (arith, length-drop n xs (omega arith))

copy-some :
    (n : ℕ) (bytes buffer : List ℕ)
    → n ≤ length buffer
    → n ≤ length bytes
    → (out : List ℕ) × (copy n bytes buffer ≡ some out) × (length out ≡ length buffer)
unfolding copy
copy-some n bytes buffer h l = (
  take n bytes ++ drop n buffer,
  ground (arith, h, l),
  omega (
    arith,
    length-append (take n bytes) (drop n buffer),
    length-take n bytes,
    length-drop n buffer h,
  ),
)

-- How a response changes a transaction: only a pending one, to complete or deferred.
pub record Responded (t u : Transaction) : Type 0 where
  pub unchanged : (t.state ≡ pending) ⊎ (u ≡ t)
  pub state :
      (u.state ≡ t.state) ⊎ (u.state ≡ complete) ⊎ ((u.state ≡ deferred) × (t.deferrable ≡ true))
  pub size : u.response_size ≤ t.response_size
  pub buffer : length u.response_buffer ≡ length t.response_buffer

unchanged-Responded : (t : Transaction) → Responded t t
unchanged-Responded t = record {
  unchanged = inr refl;
  state = inl refl;
  size = omega arith;
  buffer = refl;
}

complete_with-Responded :
    (t : Transaction) (response : List ℕ) (first : ℕ)
    → IsSound t
    → t.state ≡ pending
    → (u : Transaction) × (complete_with t response first ≡ some u) × Responded t u
unfolding complete_with
complete_with-Responded t response first s p = elim (Bool-cases (t.deferrable && first == 0x0f)) [
  | inl y ↦ (
    record t { state = deferred },
    rw y refl,
    record {
      unchanged = inl p;
      state = inr (inr (refl, ground arith));
      size = omega arith;
      buffer = refl;
    },
  )
  | inr n ↦
      let size = min (length response) t.response_size in
      let (out, e, l) =
        copy-some size response t.response_buffer (omega (arith, s.size)) (omega arith) in
      (
        record t { state = complete; response_size = size; response_buffer = out },
        rw n (rw e refl),
        record { unchanged = inl p; state = inr (inl refl); size = omega arith; buffer = l },
      )
]

pending_of : (s : State) → is_pending s ≡ true → s ≡ pending
pending_of s e = ground (arith, e)

respond-Responded :
    (t : Transaction) (source : Device) (response : List ℕ) (first : ℕ)
    → IsSound t
    → 0 < length response
    → (u : Transaction) × (respond t source response first ≡ some u) × Responded t u
unfolding respond
respond-Responded t source response first s p =
    elim (Bool-cases (is_from t.device source && is_pending t.state)) [
      | inl y ↦ elim (Bool-cases (is_pending t.state)) [
        | inl w ↦
            let (d, e, f) = is_matching_response_lem t response p s.mask in
            let (u, g, r) = complete_with-Responded t response first s (pending_of t.state w) in
            elim (Bool-cases d) [
              | inl m ↦ (u, ground (arith, y, e, m, g), r)
              | inr m ↦ (t, ground (arith, y, e, m), unchanged-Responded t)
            ]
        | inr w ↦ absurd (ground arith)
      ]
      | inr n ↦ (t, ground (arith, n), unchanged-Responded t)
    ]

-- The list after a response, one by one.
abbrev pub AllResponded : List Transaction → List Transaction → Type 0
AllResponded [] [] = Unit
AllResponded [] (u ∷ us) = ⊥
AllResponded (t ∷ ts) [] = ⊥
AllResponded (t ∷ ts) (u ∷ us) = Responded t u × AllResponded ts us

unchanged_all : (ts : List Transaction) → AllResponded ts ts
unchanged_all [] = tt
unchanged_all (t ∷ ts) = (unchanged-Responded t, unchanged_all ts)

respond_all-Responded :
    (ts : List Transaction) (source : Device) (response : List ℕ) (first : ℕ)
    → All IsSound ts
    → 0 < length response
    → (us : List Transaction) × (respond_all ts source response first ≡ some us)
      × AllResponded ts us
unfolding respond_all
respond_all-Responded [] source response first s p = ([], refl, tt)
respond_all-Responded (t ∷ ts) source response first s p =
    let (u, e, r) = respond-Responded t source response first s.0 p in
    let (us, f, rs) = respond_all-Responded ts source response first s.1 p in
    (u ∷ us, rw e (rw f refl), (r, rs))

-- Any frame that arrives at the response register, whatever its sender, length and content,
-- is handled without an access outside a buffer; it changes only transactions that are pending, to
-- complete or, where the command may be deferred, to deferred; and what it copies fits.
pub fcp_response-Responded :
    (ts : List Transaction) (source : Device) (response : List ℕ)
    → All IsSound ts
    → (us : List Transaction) × (fcp_response ts source response ≡ some us) × AllResponded ts us
unfolding fcp_response
fcp_response-Responded ts source [] s = (ts, refl, unchanged_all ts)
fcp_response-Responded ts source (b ∷ bs) s = elim (Bool-cases (bit_and b 0xf0 == 0)) [
  | inl y ↦
      let (us, e, r) = respond_all-Responded ts source (b ∷ bs) b s (omega arith) in (us, rw y e, r)
  | inr n ↦ (ts, rw n refl, unchanged_all ts)
]
