-- ===== src/Address.antt =====
-- The addresses of a Host that the apps accept: apps/forge/src/matchboxConnection.ts, and the same
-- code in apps/teacher/src/teacherSession.ts. The parser of URLs, `Number` of a text and
-- `Number.parseInt` with base 16 are parameters. The host name of a URL is in ASCII.
pub mod Blocks
pub mod Accepted
pub mod Tests
use the_cinder_project.Base.{
  ℕ, suc, ◌+◌, ◌-◌, ◌*◌, ◌/◌, ◌%◌, ◌^◌, Bool, true, false, not, ◌&&◌, ◌||◌, Option, none, some,
  List, [], ◌∷◌, map, Text, codes, text_eq, truthy, or_text, starts_with, ends_with, split, lower,
  trim, any, leb, ◌==◌, if◌then◌else◌,
}
use the_cinder_project.Base.Number.{Number, nan, infinite, finite, equals}

-- `replace(/^c/, "")`
abbrev pub without_start : ℕ → Text → Text
without_start k [] = []
without_start k (c ∷ s) = if c == k then s else c ∷ s

-- `replace(/c$/, "")`
abbrev pub without_end : ℕ → Text → Text
without_end k [] = []
without_end k (c ∷ []) = if c == k then [] else c ∷ []
without_end k (c ∷ (d ∷ s)) = c ∷ without_end k (d ∷ s)

abbrev pub bare_host : Text → Text
bare_host hostname = map lower (without_end b'.' (without_end b']' (without_start b'[' hostname)))

-- `low <= x && x <= high`; neither infinity lies in a range.
abbrev pub in_range : ℕ → ℕ → Number → Bool
in_range low high nan = false
in_range low high infinite = false
in_range low high (finite true n d) = n == 0 && low == 0
in_range low high (finite false n d) = leb (low * suc d) n && leb n (high * suc d)

-- `Number.isInteger`
abbrev pub is_integer : Number → Bool
is_integer nan = false
is_integer infinite = false
is_integer (finite _ n d) = n % suc d == 0

abbrev pub is_octet : Number → Bool
is_octet part = is_integer part && in_range 0 255 part

abbrev pub is_ipv4 : List Number → Bool
is_ipv4 [] = false
is_ipv4 (_ ∷ []) = false
is_ipv4 (_ ∷ (_ ∷ [])) = false
is_ipv4 (_ ∷ (_ ∷ (_ ∷ []))) = false
is_ipv4 (a ∷ (b ∷ (c ∷ (d ∷ [])))) = is_octet a && is_octet b && is_octet c && is_octet d
is_ipv4 (_ ∷ (_ ∷ (_ ∷ (_ ∷ (_ ∷ _))))) = false

abbrev pub is_private : List Number → Bool
is_private [] = false
is_private (_ ∷ []) = false
is_private (a ∷ (b ∷ _)) =
    equals a 127
    || equals a 10
    || (equals a 172 && in_range 16 31 b)
    || (equals a 192 && equals b 168)
    || (equals a 169 && equals b 254)

-- The operand of `&`: the number modulo 2^32, and 0 for `NaN`.
abbrev pub to_uint32 : Number → ℕ
to_uint32 nan = 0
to_uint32 infinite = 0
to_uint32 (finite true n d) = (2 ^ 32 - (n / suc d) % 2 ^ 32) % 2 ^ 32
to_uint32 (finite false n d) = (n / suc d) % 2 ^ 32

-- The bits from 9 to 15, and those from 6 to 15.
abbrev pub is_unique_local : ℕ → Bool
is_unique_local group = (group % 2 ^ 16) / 2 ^ 9 == 0x7e

abbrev pub is_link_local : ℕ → Bool
is_link_local group = (group % 2 ^ 16) / 2 ^ 6 == 0x3fa

abbrev pub head_of : List Text → Text
head_of [] = []
head_of (s ∷ _) = s

module _ (to_number parse_hex : Text → Number) where
  unfoldable pub is_local_ipv6 : Text → Bool
  unfolding text_eq split
  is_local_ipv6 host =
      let group = to_uint32 (parse_hex (or_text (head_of (split b':' host)) (codes "0"))) in
      if text_eq host (codes "::1")
      then true
      else if not (any (λ c. c == b':') host)
      then false
      else is_unique_local group || is_link_local group

  unfoldable pub is_local_host : Text → Bool
  unfolding text_eq split ends_with is_local_ipv6
  is_local_host host =
      let ipv4 = map to_number (split b'.' host) in
      if text_eq host (codes "localhost") || ends_with host (codes ".local")
      then true
      else if is_ipv4 ipv4
      then is_private ipv4
      else is_local_ipv6 host

  unfoldable pub is_local_network_host : Text → Bool
  unfolding is_local_host
  is_local_network_host hostname = is_local_host (bare_host hostname)

pub record Url : Type 0 where
  pub protocol : Text
  pub username : Text
  pub password : Text
  pub hostname : Text
  pub pathname : Text
  pub origin : Text

pub data Address : Type 0 where
  accepted refused : Text → Address

abbrev pub has_scheme : Text → Bool
has_scheme input =
    let folded = map lower input in
    starts_with folded (codes "http://") || starts_with folded (codes "https://")

abbrev pub outside : Text
outside = codes "Use HTTPS when connecting outside the local school network."

module _ (to_number parse_hex : Text → Number) (parse_url : Text → Option Url) where
  unfoldable pub check_url : Text → Url → Address
  unfolding text_eq
  check_url input url =
      if not (truthy url.hostname)
      then refused (codes "The Host address has no host.")
      else if truthy url.username
          || truthy url.password
          || any (λ c. c == b'?') input
          || any (λ c. c == b'#') input
      then refused (codes "The Host address cannot contain credentials or parameters.")
      else if not (text_eq url.pathname (codes "/"))
      then refused (codes "The Host address cannot contain an extra path.")
      else if text_eq url.protocol (codes "http:")
          && not (is_local_network_host to_number parse_hex url.hostname)
      then refused outside
      else accepted url.origin

  unfoldable pub normalize_matchbox_host_address : Text → Address
  unfolding trim check_url
  normalize_matchbox_host_address value =
      let input = trim value in
      if not (has_scheme input)
      then refused (codes "The Host address must start with http:// or https://.")
      else elim (parse_url input) [
        | none ↦ refused (codes "Enter a valid Cinder Host address.")
        | some url ↦ check_url input url
      ]

  abbrev pub normalize_teacher_host_address : Text → Address
  normalize_teacher_host_address value = normalize_matchbox_host_address value
