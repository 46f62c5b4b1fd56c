-- ===== src/Fireworks/Command/Frames.antt =====
-- The words of a command's bytes.
use snd_firewire_improve.Common.{
  ℕ, ◌+◌, ◌*◌, ◌/◌, ◌%◌, ◌^◌, ◌<◌, ◌≡◌, refl, ap, true, List, [], ◌∷◌, ◌++◌, length, length-append,
  get_elem?, append_assoc, some, arith,
}
use snd_firewire_improve.Fireworks.Ring.{word_at, read_at}
use snd_firewire_improve.Fireworks.Command.{header, check_header}

-- A word is the one that it was made of.
be32_lem :
    (w : ℕ)
    → w < 2 ^ 32
    → ((w / 2 ^ 24 % 256 * 256 + w / 2 ^ 16 % 256) * 256 + w / 2 ^ 8 % 256) * 256 + w % 256 ≡ w
be32_lem w h = omega arith

pub header-length :
    (bytes seqnum category command : ℕ) (rest : List ℕ)
    → bytes < 2 ^ 32
    → word_at (header bytes seqnum category command ++ rest) 0 ≡ some (bytes / 4)
unfolding word_at
header-length bytes seqnum category command rest h = ap some (be32_lem (bytes / 4) (omega arith))

pub header-seqnum :
    (bytes seqnum category command : ℕ) (rest : List ℕ)
    → seqnum < 2 ^ 32
    → word_at (header bytes seqnum category command ++ rest) 8 ≡ some seqnum
unfolding word_at
header-seqnum bytes seqnum category command rest h = ap some (be32_lem seqnum h)

pub header-category :
    (bytes seqnum category command : ℕ) (rest : List ℕ)
    → category < 2 ^ 32
    → word_at (header bytes seqnum category command ++ rest) 12 ≡ some category
unfolding word_at
header-category bytes seqnum category command rest h = ap some (be32_lem category h)

pub header-command :
    (bytes seqnum category command : ℕ) (rest : List ℕ)
    → command < 2 ^ 32
    → word_at (header bytes seqnum category command ++ rest) 16 ≡ some command
unfolding word_at
header-command bytes seqnum category command rest h = ap some (be32_lem command h)

version_lem :
    (bytes seqnum category command : ℕ) (rest : List ℕ)
    → word_at (header bytes seqnum category command ++ rest) 4 ≡ some 1
unfolding word_at
version_lem bytes seqnum category command rest = refl

status_lem :
    (bytes seqnum category command : ℕ) (rest : List ℕ)
    → word_at (header bytes seqnum category command ++ rest) 20 ≡ some 0
unfolding word_at
status_lem bytes seqnum category command rest = refl

-- A header passes the test for its own category and command.
pub check_header-header :
    (bytes seqnum category command : ℕ) (rest : List ℕ)
    → category < 2 ^ 32
    → command < 2 ^ 32
    → check_header (header bytes seqnum category command ++ rest) category command ≡ some true
unfolding check_header
check_header-header bytes seqnum category command rest h k =
    let version : word_at (header bytes seqnum category command ++ rest) 4 ≡ some 1 =
      version_lem bytes seqnum category command rest in
    let status : word_at (header bytes seqnum category command ++ rest) 20 ≡ some 0 =
      status_lem bytes seqnum category command rest in
    let e = header-category bytes seqnum category command rest h in
    let f = header-command bytes seqnum category command rest k in
    rw (version, status, e, f) (ground arith)

get_elem?-front :
    (front : List ℕ) (x : ℕ) (rest : List ℕ)
    → get_elem? (front ++ (x ∷ rest)) (length front) ≡ some x
get_elem?-front [] x rest = refl
get_elem?-front (y ∷ front) x rest = get_elem?-front front x rest

read_at-append :
    (front ps rest : List ℕ) → read_at (front ++ (ps ++ rest)) (length front) (length ps) ≡ some ps
unfolding read_at
read_at-append front [] rest = refl
read_at-append front (p ∷ ps) rest =
    let next = read_at-append (front ++ (p ∷ [])) ps rest in
    let len : length (front ++ (p ∷ [])) ≡ length front + 1 = length-append front (p ∷ []) in
    rw (get_elem?-front front p (ps ++ rest))
      (rw (rw (append_assoc front (p ∷ []) (ps ++ rest), len) at next) refl)

-- The bytes behind a header.
pub read_at-header :
    (bytes seqnum category command : ℕ) (ps rest : List ℕ)
    → read_at (header bytes seqnum category command ++ (ps ++ rest)) 24 (length ps) ≡ some ps
read_at-header bytes seqnum category command ps rest =
    read_at-append (header bytes seqnum category command) ps rest
