-- ===== src/Routing/FlowId.antt =====
-- `build_connection_between_hosts_id` and `build_ip_adresses` of
-- app/machine_learning_for_routing/controller/functions.py: the name of a flow.
use Prim.Native.String.{◌++◌}
use Prim.Native.Char.{code}
use text.Mathlib.TextLemmas.{cons-append, nil-append}
use comnetsemu.Prelude.{
  String, Bool, false, Option, none, some, if◌then◌else◌, ◌==◌, nat_eq, ◌||◌, ◌≡◌, refl, arith,
}

unfoldable pub build_connection_between_hosts_id : String → String → String
build_connection_between_hosts_id src_ip dst_ip = src_ip ++ ("_" ++ dst_ip)

-- `s.split("_")[0]`
unfoldable pub first_part : String → String
first_part String.[] = String.[]
first_part (String.◌∷◌ c s) = if code c == b'_' then String.[] else String.◌∷◌ c (first_part s)

-- What stands behind the first `_`, if there is one.
unfoldable pub other_parts : String → Option String
other_parts String.[] = none
other_parts (String.◌∷◌ c s) = if code c == b'_' then some s else other_parts s

-- `none` is the IndexError of an id that has no `_`.
unfoldable pub build_ip_adresses : String → Option (String × String)
unfolding first_part other_parts
build_ip_adresses flow_id = elim (other_parts flow_id) [
  | none ↦ none
  | some rest ↦ some (first_part flow_id, first_part rest)
]

unfoldable pub has_underscore : String → Bool
has_underscore String.[] = false
has_underscore (String.◌∷◌ c s) = (code c == b'_') || has_underscore s

first_part_whole : (s : String) → has_underscore s ≡ false → first_part s ≡ s
unfolding first_part has_underscore
first_part_whole String.[] h = refl
first_part_whole (String.◌∷◌ c s) h = ground (arith, first_part_whole s)

first_part-append : (s t : String) → has_underscore s ≡ false → first_part (s ++ ("_" ++ t)) ≡ s
unfolding first_part has_underscore
first_part-append String.[] t h = rw (nil-append, cons-append) refl
first_part-append (String.◌∷◌ c s) t h = rw cons-append (ground (arith, first_part-append s t))

other_parts-append :
    (s t : String) → has_underscore s ≡ false → other_parts (s ++ ("_" ++ t)) ≡ some t
unfolding other_parts has_underscore
other_parts-append String.[] t h = rw (nil-append, cons-append, nil-append) refl
other_parts-append (String.◌∷◌ c s) t h = rw cons-append (ground (arith, other_parts-append s t))

-- The addresses of a flow are read back from its id, if neither has a `_` in it.
pub build_ip_adresses-build_connection_between_hosts_id :
    (src dst : String)
    → has_underscore src ≡ false
    → has_underscore dst ≡ false
    → build_ip_adresses (build_connection_between_hosts_id src dst) ≡ some (src, dst)
unfolding build_ip_adresses build_connection_between_hosts_id
build_ip_adresses-build_connection_between_hosts_id src dst h k =
    let rest : other_parts (src ++ ("_" ++ dst)) ≡ some dst = other_parts-append src dst h in
    let start : first_part (src ++ ("_" ++ dst)) ≡ src = first_part-append src dst h in
    let end : first_part dst ≡ dst = first_part_whole dst k in ground arith
