-- ===== src/Address/Accepted.antt =====
-- Which plain addresses in the network the apps connect to.
use the_cinder_project.Base.{
  ℕ, ◌≤◌, Bool, true, false, not, ◌&&◌, Option, some, Text, codes, text_eq, text_eq_refl, truthy,
  trim, any, ◌==◌, if◌then◌else◌, ◌≡◌, refl, ◌∙◌, ap,
}
use the_cinder_project.Base.Number.{Number}
use the_cinder_project.Address.{
  Url, accepted, refused, Address, has_scheme, outside, is_local_network_host, check_url,
  normalize_matchbox_host_address,
}
use the_cinder_project.Address.Blocks.{quad, address_of, in_blocks, ReadsDigits, is_local-quad}

-- An address of the Host alone: no account, no parameters and no path.
pub record IsBare (input : Text) (url : Url) : Type 0 where
  pub scheme : has_scheme input ≡ true
  pub hostname : truthy url.hostname ≡ true
  pub username : truthy url.username ≡ false
  pub password : truthy url.password ≡ false
  pub parameters : any (λ c. c == b'?') input ≡ false
  pub fragment : any (λ c. c == b'#') input ≡ false
  pub path : text_eq url.pathname (codes "/") ≡ true

if-not : (b : Bool) (x y : Address) → (if not b then x else y) ≡ (if b then y else x)
if-not true x y = refl
if-not false x y = refl

module _ (to_number parse_hex : Text → Number) (parse_url : Text → Option Url) where
  check_url-IsBare :
      (input : Text) (url : Url)
      → IsBare input url
      → check_url to_number parse_hex parse_url input url ≡ (
          if text_eq url.protocol (codes "http:")
            && not (is_local_network_host to_number parse_hex url.hostname)
          then refused outside
          else accepted url.origin)
  unfolding check_url
  check_url-IsBare input url b =
      simp (b.hostname, b.username, b.password, b.parameters, b.fragment, b.path) refl

  normalize-IsBare :
      (value : Text) (url : Url)
      → IsBare (trim value) url
      → parse_url (trim value) ≡ some url
      → normalize_matchbox_host_address to_number parse_hex parse_url value
        ≡ check_url to_number parse_hex parse_url (trim value) url
  unfolding normalize_matchbox_host_address
  normalize-IsBare value url b e = simp (b.scheme, e) refl

  -- An address over plain HTTP, of a Host that is given by its IPv4 address and without account,
  -- parameters or path, is accepted exactly if the address lies in one of the blocks 127.0.0.0/8,
  -- 10.0.0.0/8, 172.16.0.0/12, 192.168.0.0/16 and 169.254.0.0/16; any other is refused with the
  -- advice to use HTTPS. `Number` reads decimal digits here, and the parser of URLs gives back the
  -- four octets.
  pub normalize-in_blocks :
      ReadsDigits to_number
      → (value : Text) (url : Url) (a b c d : ℕ) → a ≤ 255
      → b ≤ 255
      → c ≤ 255
      → d ≤ 255
      → IsBare (trim value) url
      → parse_url (trim value) ≡ some url
      → url.protocol ≡ codes "http:"
      → url.hostname ≡ quad a b c d
      → normalize_matchbox_host_address to_number parse_hex parse_url value
        ≡ (if in_blocks (address_of a b c d) then accepted url.origin else refused outside)
  normalize-in_blocks reads value url a b c d ha hb hc hd bare e plain host =
      let local : is_local_network_host to_number parse_hex url.hostname
          ≡ in_blocks (address_of a b c d) =
        ap (is_local_network_host to_number parse_hex) host
        ∙ is_local-quad to_number parse_hex reads a b c d ha hb hc hd in
      let http : text_eq url.protocol (codes "http:") ≡ true =
        ap (λ p. text_eq p (codes "http:")) plain ∙ text_eq_refl (codes "http:") in
      normalize-IsBare value url bare e
      ∙ check_url-IsBare (trim value) url bare
      ∙ simp (http, local)
          (if-not (in_blocks (address_of a b c d)) (refused outside) (accepted url.origin))
