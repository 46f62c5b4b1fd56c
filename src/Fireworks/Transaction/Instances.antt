-- ===== src/Fireworks/Transaction/Instances.antt =====
-- The instances that the handler of responses knows.
use snd_firewire_improve.Common.{
  ℕ, ◌≡◌, refl, Bool, true, false, ◌==◌, List, [], ◌∷◌, All, Option, some, none, ◌>>=◌, >>=-assoc,
  arith,
}
use snd_firewire_improve.Bus.{Rcode}
use snd_firewire_improve.Fcp.{Device, is_from}
use snd_firewire_improve.Fireworks.Ring.{copy_resp_to_buf}
use snd_firewire_improve.Fireworks.Transaction.{
  Instance, taken_code, is_instance_for, handle_resp_for_user, snd_efw_transaction_add_instance,
  snd_efw_transaction_remove_instance,
}

abbrev is_same : Instance → Option Instance → Bool
is_same efw none = false
is_same efw (some i) = i.id == efw.id

-- An instance that is not in the list.
abbrev pub IsAbsent : Instance → List (Option Instance) → Type 0
IsAbsent efw is = All (λ i. is_same efw i ≡ false) is

-- No instance of the list is for the device.
abbrev pub IsForeign : Device → List (Option Instance) → Type 0
IsForeign source is = All (λ i. is_instance_for source i ≡ false) is

abbrev pub has_room : List (Option Instance) → Bool
has_room [] = false
has_room (none ∷ is) = true
has_room (some i ∷ is) = has_room is

remove_absent :
    (efw : Instance) (is : List (Option Instance))
    → IsAbsent efw is
    → snd_efw_transaction_remove_instance efw is ≡ is
unfolding snd_efw_transaction_remove_instance
remove_absent efw [] h = refl
remove_absent efw (none ∷ is) h = rw (remove_absent efw is h.1) refl
remove_absent efw (some i ∷ is) h = rw (h.0, remove_absent efw is h.1) refl

-- Removing an instance after it was added, even if there was no room for it, leaves the list as it
-- was before.
pub remove-add_instance :
    (efw : Instance) (is : List (Option Instance))
    → IsAbsent efw is
    → snd_efw_transaction_remove_instance efw (snd_efw_transaction_add_instance efw is) ≡ is
unfolding snd_efw_transaction_remove_instance snd_efw_transaction_add_instance
remove-add_instance efw [] h = refl
remove-add_instance efw (none ∷ is) h =
    let same : (efw.id == efw.id) ≡ true = ground arith in rw (same, remove_absent efw is h.1) refl
remove-add_instance efw (some i ∷ is) h = rw (h.0, remove-add_instance efw is h.1) refl

-- A response for user space from a device goes to the ring buffer of the instance that was added for
-- it, when there was room for it and no other instance is for the device, and to no other.
pub handle_resp_for_user-add_instance :
    (efw : Instance) (is : List (Option Instance)) (response : List ℕ) (rcode : Rcode)
    → IsForeign efw.device is
    → has_room is ≡ true
    → handle_resp_for_user (snd_efw_transaction_add_instance efw is) efw.device response rcode ≡ (
        copy_resp_to_buf efw.responses response >>= λ r.
        some (taken_code r.0, snd_efw_transaction_add_instance (record efw { responses = r.1 }) is))
unfolding handle_resp_for_user snd_efw_transaction_add_instance
handle_resp_for_user-add_instance efw [] response rcode h r = absurd cc
handle_resp_for_user-add_instance efw (none ∷ is) response rcode h r =
    let same : is_from efw.device efw.device ≡ true = ground arith in rw same refl
handle_resp_for_user-add_instance efw (some i ∷ is) response rcode h r =
    rw (h.0, handle_resp_for_user-add_instance efw is response rcode h.1 r)
      (>>=-assoc (copy_resp_to_buf efw.responses response) _ _)
