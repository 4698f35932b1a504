-- ===== src/Address/Tests.antt =====
-- The addresses at concrete inputs.
use the_cinder_project.Base.{
  true, false, some, Text, codes, text_eq, trim, ends_with, split, ◌≡◌, refl, if◌then◌else◌, arith,
}
use the_cinder_project.Base.Number.{Number, nan, from_nat}
use the_cinder_project.Base.Decimal.{decimal, number_from}
use the_cinder_project.Address.{
  Url, accepted, refused, outside, normalize_matchbox_host_address, is_local_network_host,
  is_local_host, is_local_ipv6,
}
use the_cinder_project.Address.Blocks.{quad, address_of, in_blocks}
use the_cinder_project.Address.Accepted.{normalize-in_blocks, IsBare}

abbrev read_digits : Text → Number
read_digits s = from_nat (number_from 0 s)

abbrev school : Url
school = record {
  protocol = codes "http:";
  username = codes "";
  password = codes "";
  hostname = quad 172 31 4 250;
  pathname = codes "/";
  origin = codes "http://172.31.4.250:8787";
}

abbrev typed : Text
typed = codes " http://172.31.4.250:8787 "

typed-IsBare : IsBare (trim typed) school
unfolding text_eq trim decimal
typed-IsBare = record {
  scheme = refl;
  hostname = refl;
  username = refl;
  password = refl;
  parameters = refl;
  fragment = refl;
  path = refl;
}

normalize-in_blocks_example :
    normalize_matchbox_host_address read_digits read_digits (λ s. some school) typed
    ≡ (if in_blocks (address_of 172 31 4 250) then accepted school.origin else refused outside)
normalize-in_blocks_example =
    normalize-in_blocks read_digits read_digits (λ s. some school) (λ s t d. refl) typed school 172
      31 4 250 (omega arith) (omega arith) (omega arith) (omega arith) typed-IsBare refl refl refl

local_test : is_local_network_host (λ s. nan) read_digits (codes "[FE80::1]") ≡ false
unfolding is_local_network_host is_local_host is_local_ipv6 text_eq ends_with split number_from
local_test = refl

ipv6_test : is_local_network_host (λ s. nan) (λ s. from_nat 0xfe80) (codes "[FE80::1]") ≡ true
unfolding is_local_network_host is_local_host is_local_ipv6 text_eq ends_with split
ipv6_test = refl
