-- ===== src/Digi00x/Message/Route.antt =====
-- Which instance a message reaches.
use snd_firewire_improve.Common.{
  ℕ, zero, suc, ◌+◌, ◌*◌, ◌/◌, ◌%◌, ◌^◌, ◌≤◌, ◌≡◌, ◌∙◌, inl, inr, refl, ap, true, false, Bool-cases,
  ltb, if◌then◌else◌, ◌==◌, List, [], ◌∷◌, ◌++◌, length, take, get_elem?, All, Option, none, some,
  ◌>>=◌, >>=-assoc, arith,
}
use snd_firewire_improve.Digi00x.Message.{
  Dg00x, receive, bytes_at, receive_quadlets, handle_unknown_message, handle_midi_control,
  is_sender, dispatch, handle_message,
}

-- No entry is for the sender.
abbrev pub IsStranger : ℕ → ℕ → List (Option Dg00x) → Type 0
IsStranger card source is = All (λ i. is_sender card source i ≡ false) is

dispatch_sender :
    (handler : Dg00x → Option Dg00x) (card source : ℕ) (before after : List (Option Dg00x))
    (d : Dg00x)
    → IsStranger card source before
    → is_sender card source (some d) ≡ true
    → dispatch handler card source (before ++ (some d ∷ after))
      ≡ (handler d >>= λ d'. some (before ++ (some d' ∷ after)))
unfolding dispatch
dispatch_sender handler card source [] [] d s h = >>=-assoc (handler d) _ _
dispatch_sender handler card source [] (j ∷ after) d s h = rw h (>>=-assoc (handler d) _ _)
dispatch_sender handler card source (i ∷ []) after d s h =
    rw (s.0, dispatch_sender handler card source [] after d tt h) (>>=-assoc (handler d) _ _)
dispatch_sender handler card source (i ∷ j ∷ before) after d s h =
    rw (s.0, dispatch_sender handler card source (j ∷ before) after d s.1 h)
      (>>=-assoc (handler d) _ _)

dispatch_stranger :
    (handler : Dg00x → Option Dg00x) (card source : ℕ) (is : List (Option Dg00x))
    → IsStranger card source is
    → dispatch handler card source (is ++ (none ∷ [])) ≡ none
unfolding dispatch
dispatch_stranger handler card source [] s = refl
dispatch_stranger handler card source (i ∷ []) s =
    rw (s.0, dispatch_stranger handler card source [] tt) refl
dispatch_stranger handler card source (i ∷ j ∷ is) s =
    rw (s.0, dispatch_stranger handler card source (j ∷ is) s.1) refl

-- A quadlet of MIDI control: a byte that is not read, two bytes, and a label with the number of
-- bytes in its low 4 bits.
abbrev pub Quadlet : Type 0
Quadlet = ℕ × ℕ × ℕ × ℕ

abbrev pub flatten : List Quadlet → List ℕ
flatten [] = []
flatten ((x, y, z, label) ∷ qs) = x ∷ y ∷ z ∷ label ∷ flatten qs

-- What the quadlets hand over, the latest first, on what was handed over before.
abbrev pub received_after : List Quadlet → List (List ℕ) → List (List ℕ)
received_after [] old = old
received_after ((x, y, z, label) ∷ qs) old =
    received_after qs
      (if ltb 0 (label % 16) then take (label % 16) (y ∷ z ∷ label ∷ []) ∷ old else old)

abbrev pub IsLabelled : List Quadlet → Type 0
IsLabelled qs = All (λ (q : Quadlet). q.3 % 16 ≤ 3) qs

-- The bytes of a quadlet that its label counts.
bytes_of :
    (bytes rest : List ℕ) (p x y z label n : ℕ)
    → n ≤ 3
    → ((i : ℕ) → get_elem? bytes (p + i) ≡ get_elem? (x ∷ y ∷ z ∷ label ∷ rest) i)
    → bytes_at bytes (p + 1) n ≡ some (take n (y ∷ z ∷ label ∷ []))
unfolding bytes_at
bytes_of bytes rest p x y z label zero h e = refl
bytes_of bytes rest p x y z label (suc zero) h e = rw (e 1) refl
bytes_of bytes rest p x y z label (suc (suc zero)) h e =
    let a : p + 1 + 1 ≡ p + 2 = omega arith in rw (e 1, a, e 2) refl
bytes_of bytes rest p x y z label (suc (suc (suc zero))) h e =
    let a : p + 1 + 1 ≡ p + 2 = omega arith in
    let b : p + 2 + 1 ≡ p + 3 = omega arith in rw (e 1, a, e 2, b, e 3) refl
bytes_of bytes rest p x y z label (suc (suc (suc (suc n)))) h e = absurd (omega arith)

receive_quadlets_lem :
    (qs : List Quadlet) (p : ℕ) (d : Dg00x) (bytes : List ℕ)
    → IsLabelled qs
    → ((i : ℕ) → get_elem? bytes (p + i) ≡ get_elem? (flatten qs) i)
    → receive_quadlets (length qs) p d bytes
      ≡ some (record d { received = received_after qs d.received })
unfolding receive_quadlets
receive_quadlets_lem [] p d bytes l e = refl
receive_quadlets_lem ((x, y, z, label) ∷ qs) p d bytes l e =
    let later : (i : ℕ) → get_elem? bytes (p + 4 + i) ≡ get_elem? (flatten qs) i = λ i.
      (let a : p + 4 + i ≡ p + suc (suc (suc (suc i))) = omega arith in
        rw a (e (suc (suc (suc (suc i)))))) in
    let m = take (label % 16) (y ∷ z ∷ label ∷ []) in
    elim (Bool-cases (ltb 0 (label % 16))) [
      | inl some_bytes ↦
          rw (e 3, some_bytes, bytes_of bytes (flatten qs) p x y z label (label % 16) l.0 e)
            (receive_quadlets_lem qs (p + 4) (receive d m) bytes l.1 later)
      | inr nothing ↦ rw (e 3, nothing) (receive_quadlets_lem qs (p + 4) d bytes l.1 later)
    ]

length-flatten : (qs : List Quadlet) → length (flatten qs) ≡ 4 * length qs
length-flatten [] = refl
length-flatten ((x, y, z, label) ∷ qs) = omega (arith, length-flatten qs)

handle_midi_control_lem :
    (qs : List Quadlet) (d : Dg00x) (substream : ℕ)
    → IsLabelled qs
    → d.in_control ≡ some substream
    → handle_midi_control d (flatten qs)
      ≡ some (record d { received = received_after qs d.received })
unfolding handle_midi_control
handle_midi_control_lem qs d substream l i =
    let n : length (flatten qs) / 4 ≡ length qs = omega (arith, length-flatten qs) in
    let from : (k : ℕ) → get_elem? (flatten qs) (0 + k) ≡ get_elem? (flatten qs) k =
      λ k. (let z : 0 + k ≡ k = omega arith in rw z refl) in
    ap
      (λ (o : Option ℕ). elim o [
        | none ↦ some d
        | some x ↦ receive_quadlets (length (flatten qs) / 4) 0 d (flatten qs)
      ])
      i
    ∙ rw n (receive_quadlets_lem qs 0 d (flatten qs) l from)

handle_unknown_message_lem :
    (a b c e : ℕ) (more : List ℕ) (d : Dg00x)
    → handle_unknown_message d (a ∷ b ∷ c ∷ e ∷ more)
      ≡ some (record d { msg = a * 2 ^ 24 + b * 2 ^ 16 + c * 2 ^ 8 + e; woken = d.woken + 1 })
unfolding handle_unknown_message
handle_unknown_message_lem a b c e more d =
    let m : ((a * 256 + b) * 256 + c) * 256 + e ≡ a * 2 ^ 24 + b * 2 ^ 16 + c * 2 ^ 8 + e =
      omega arith in
    rw m refl

-- A message of a device reaches the first instance for that device in the table, and the other
-- instances stay as they are. One of four bytes or more to the handler's offset is kept: its first
-- quadlet becomes the instance's message, in big-endian order, and who waits for it is woken. One of
-- quadlets to the offset 4 bytes behind that, of which no label counts more than 3 bytes, is handed to
-- the MIDI substream of the instance, which is open: of each quadlet the bytes behind the first, as
-- many as the low 4 bits of its label count, in the order of the quadlets, where they count any.
pub handle_message-sender :
    (handler_offset card source a b c e : ℕ) (more : List ℕ) (qs : List Quadlet)
    (before after : List (Option Dg00x)) (d : Dg00x) (substream : ℕ)
    → IsStranger card source before
    → is_sender card source (some d) ≡ true
    → d.in_control ≡ some substream
    → IsLabelled qs
    → let kept = record d { msg = a * 2 ^ 24 + b * 2 ^ 16 + c * 2 ^ 8 + e; woken = d.woken + 1 } in
      let handed = record d { received = received_after qs d.received } in
      let instances = before ++ (some d ∷ after) in
      (handle_message handler_offset card source handler_offset (a ∷ b ∷ c ∷ e ∷ more) instances
        ≡ some (before ++ (some kept ∷ after)))
      × (handle_message handler_offset card source (handler_offset + 4) (flatten qs) instances
          ≡ some (before ++ (some handed ∷ after)))
unfolding handle_message
handle_message-sender handler_offset card source a b c e more qs before after d substream s h i l =
    let same : (handler_offset == handler_offset) ≡ true = ground arith in
    let later : (handler_offset + 4 == handler_offset) ≡ false = ground arith in
    let same4 : (handler_offset + 4 == handler_offset + 4) ≡ true = ground arith in
    let bytes = a ∷ b ∷ c ∷ e ∷ more in
    let kept = handle_unknown_message_lem a b c e more d in
    let handed = handle_midi_control_lem qs d substream l i in
    (
      rw same (
          dispatch_sender (λ x. handle_unknown_message x bytes) card source before after d s h
          ∙ rw kept refl),
      rw (later, same4)
          (dispatch_sender (λ x. handle_midi_control x (flatten qs)) card source before after d s h
            ∙ rw handed refl),
    )

-- A message to one of the two offsets from a node that no instance is for ends in an access through a
-- null pointer, unless the last entry of the table of instances is in use.
pub handle_message-stranger :
    (handler_offset card source : ℕ) (bytes : List ℕ) (is : List (Option Dg00x))
    → IsStranger card source is
    → (handle_message handler_offset card source handler_offset bytes (is ++ (none ∷ [])) ≡ none)
      × (handle_message handler_offset card source (handler_offset + 4) bytes (is ++ (none ∷ []))
          ≡ none)
unfolding handle_message
handle_message-stranger handler_offset card source bytes is s =
    let same : (handler_offset == handler_offset) ≡ true = ground arith in
    let later : (handler_offset + 4 == handler_offset) ≡ false = ground arith in
    let same4 : (handler_offset + 4 == handler_offset + 4) ≡ true = ground arith in
    (
      rw same (dispatch_stranger (λ x. handle_unknown_message x bytes) card source is s),
      rw (later, same4) (dispatch_stranger (λ x. handle_midi_control x bytes) card source is s),
    )
