-- ===== src/PacketsBuffer/Layout.antt =====
-- Where the packet slots lie: inside one page each, inside the buffer, and apart from one another.
use snd_firewire_improve.Common.{
  ℕ, zero, suc, ◌+◌, ◌*◌, ◌/◌, ◌%◌, ◌≤◌, ◌<◌, ◌≡◌, ◌⊎◌, ◌∙◌, inl, inr, refl, ap, sym, subst, List,
  length, get_elem?, Option, some, none, ok, Result-cases, arith,
}
use native.Mathlib.Decide.{dec_lt}
use native.Mathlib.Nat.{mod-lt, div-add-mod', div-mul-le_self, le-div_iff_mul-le}
use snd_firewire_improve.PacketsBuffer.{
  Memory, Packet, div_round_up, cache_align, slot_quadlets, slot_offset, slots, init,
}

length-slot_quadlets : (memory : ℕ → ℕ) (n i : ℕ) → length (slot_quadlets memory n i) ≡ n
unfolding slot_quadlets
length-slot_quadlets memory zero i = refl
length-slot_quadlets memory (suc n) i = ap suc (length-slot_quadlets memory n (i + 1))

pub length-slots :
    (m : Memory) (memory : ℕ → ℕ) (size n i : ℕ) → length (slots m memory size n i) ≡ n
unfolding slots
length-slots m memory size zero i = refl
length-slots m memory size (suc n) i = ap suc (length-slots m memory size n (i + 1))

-- Entry j of the table.
pub get-slots :
    (m : Memory) (memory : ℕ → ℕ) (size n i j : ℕ) (p : Packet)
    → get_elem? (slots m memory size n i) j ≡ some p
    → (j < n) × (p.offset ≡ slot_offset m.page_size size (i + j)) × (length p.quadlets ≡ size / 4)
unfolding slots
get-slots m memory size zero i j p e = cc
get-slots m memory size (suc n) i zero p e =
    let z : i + 0 ≡ i = omega arith in
    let at : slot_offset m.page_size size i ≡ p.offset =
      ap (λ (o : Option Packet). elim o [ some x ↦ x.offset | none ↦ 0 ]) e in
    let long : length (slot_quadlets memory (size / 4) (slot_offset m.page_size size i / 4))
        ≡ length p.quadlets =
      ap (λ (o : Option Packet). elim o [ some x ↦ length x.quadlets | none ↦ 0 ]) e in
    (
      omega arith,
      sym at ∙ ap (slot_offset m.page_size size) (sym z),
      sym long ∙ length-slot_quadlets memory (size / 4) _,
    )
get-slots m memory size (suc n) i (suc j) p e =
    let r = get-slots m memory size n (i + 1) j p e in
    let k : i + 1 + j ≡ i + suc j = omega arith in
    (omega arith, r.1 ∙ ap (slot_offset m.page_size size) k, r.2)

-- The products that bound a slot.
below_product : (x n k : ℕ) → x < n → x * k + k ≤ n * k
below_product x n k h = grind arith

-- Every slot lies inside one page.
in_page : (page size i : ℕ) → 0 < page / size → i % (page / size) * size + size ≤ page
in_page page size i h =
    let q = page / size in
    omega (arith, below_product (i % q) q size (mod-lt i h), div-mul-le_self page size)

-- A later slot is on a later page, or further on in the same one.
order_of_pages : (q i j : ℕ) → 0 < q → i < j → (i / q < j / q) ⊎ ((i / q ≡ j / q) × (i % q < j % q))
order_of_pages q i j h l = elim (dec_lt (i / q) (j / q)) [
  | yes y ↦ inl y
  | no n ↦ elim (dec_lt (j / q) (i / q)) [
    | yes y ↦ absurd (
        omega (
          arith,
          below_product (j / q) (i / q) q y,
          div-add-mod' i q,
          div-add-mod' j q,
          mod-lt j h,
        ))
    | no m ↦
        let e : i / q ≡ j / q = omega arith in
        inr (e, omega (arith, ap (λ (x : ℕ). x * q) e, div-add-mod' i q, div-add-mod' j q))
  ]
]

-- Slots follow one another without overlap.
slot_offset_order :
    (page size i j : ℕ)
    → 0 < page / size
    → i < j
    → slot_offset page size i + size ≤ slot_offset page size j
unfolding slot_offset
slot_offset_order page size i j h l =
    let q = page / size in
    elim (order_of_pages q i j h l) [
      | inl y ↦ omega (arith, below_product (i / q) (j / q) page y, in_page page size i h)
      | inr e ↦ omega (arith, ap (λ (x : ℕ). x * page) e.0, below_product (i % q) (j % q) size e.1)
    ]

-- The last slot ends inside the pages.
slot_offset_end :
    (page size count i : ℕ)
    → 0 < page / size
    → i < count
    → slot_offset page size i + size ≤ div_round_up count (page / size) * page
unfolding slot_offset
slot_offset_end page size count i h l =
    let q = page / size in
    let n = div_round_up count q in
    let y : suc (i / q) ≤ n = (le-div_iff_mul-le h).1 (omega (arith, div-mul-le_self i q)) in
    omega (arith, below_product (i / q) n page y, in_page page size i h)

page_of_sum : (a page x : ℕ) → x < page → (a * page + x) % page ≡ x
page_of_sum a page x h = grind arith

positive_size : (page size : ℕ) → 0 < page / size → 0 < size
positive_size page zero h = absurd (omega arith)
positive_size page (suc n) h = omega arith

in_one_page : (page size i : ℕ) → 0 < page / size → slot_offset page size i % page + size ≤ page
unfolding slot_offset
in_one_page page size i h =
    let room = in_page page size i h in
    let p = positive_size page size h in
    rw (page_of_sum (i / (page / size)) page (i % (page / size) * size) (omega arith)) room

-- A successful call with the packets that it lays out.
init_ok :
    (m : Memory) (count size heap : ℕ) (packets : List Packet)
    → (init m count size heap).0 ≡ ok packets
    → (0 < m.page_size / cache_align m size)
      × (memory : ℕ → ℕ) × (packets ≡ slots m memory (cache_align m size) count 0)
unfolding init
init_ok m count size heap packets e = elim (Result-cases (m.iso_buffer_init pages)) [
  | inl a ↦ (ground arith, a.0, ground (arith, a.1))
  | inr x ↦ absurd (ground (arith, x.1))
]
  where
    pages : ℕ
    pages = div_round_up count (m.page_size / cache_align m size)

-- What `iso_packets_buffer_init` lays out: `count` slots, each of the packet size rounded up to
-- cache lines, inside the pages that were allocated and inside one of them, and each behind the
-- end of those before it.
pub init_lem :
    (m : Memory) (count size heap : ℕ) (packets : List Packet)
    → (init m count size heap).0 ≡ ok packets
    → (length packets ≡ count)
      × ((i : ℕ) (p : Packet)
          → get_elem? packets i ≡ some p
          → (length p.quadlets ≡ cache_align m size / 4)
            × (p.offset % m.page_size + cache_align m size ≤ m.page_size)
            × (p.offset + cache_align m size
                ≤ div_round_up count (m.page_size / cache_align m size) * m.page_size))
      × ((i j : ℕ) (p q : Packet)
          → i < j
          → get_elem? packets i ≡ some p
          → get_elem? packets j ≡ some q
          → p.offset + cache_align m size ≤ q.offset)
init_lem m count size heap packets e =
    let (h, memory, l) = init_ok m count size heap packets e in
    let z = cache_align m size in
    let at = λ (i : ℕ) (p : Packet) (g : get_elem? packets i ≡ some p).
      get-slots m memory z count 0 i p (subst (λ (t : List Packet). get_elem? t i ≡ some p) l g) in
    (
      ap (λ (t : List Packet). length t) l ∙ length-slots m memory z count 0,
      (λ i p g.
          let (c, o, k) = at i p g in
          (
            k,
            rw o (in_one_page m.page_size z (0 + i) h),
            rw o (slot_offset_end m.page_size z count (0 + i) h (omega arith)),
          )),
      (λ i j p q h' g g'.
          let o = (at i p g).1 in
          let o' = (at j q g').1 in
          rw (o, o') (slot_offset_order m.page_size z (0 + i) (0 + j) h (omega arith))),
    )
