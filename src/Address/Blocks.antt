-- ===== src/Address/Blocks.antt =====
-- Which IPv4 addresses count as local: the blocks, read off the address as one number.
use the_cinder_project.Base.{
  ℕ, ◌+◌, ◌*◌, ◌/◌, ◌^◌, ◌≤◌, Bool, true, false, ◌&&◌, ◌||◌, List, [], ◌∷◌, ◌++◌, map, Text, codes,
  text_eq, truthy, ends_with, split, lower, All, All-append, All-map, leb, ◌==◌, if◌then◌else◌, ◌≡◌,
  refl, sym, ◌∙◌, ap, ap₂, arith,
}
use the_cinder_project.Base.Number.{Number, from_nat, equals}
use the_cinder_project.Base.Decimal.{
  decimal, is_digit, number_from, decimal-All, number_from-decimal, decimal-truthy,
}
use the_cinder_project.Address.{
  without_start, without_end, bare_host, in_range, is_octet, is_ipv4, is_private,
  is_local_network_host, is_local_host, is_local_ipv6,
}

abbrev dot : Text → Text
dot s = b'.' ∷ s

-- `a.b.c.d`
abbrev pub quad : ℕ → ℕ → ℕ → ℕ → Text
quad a b c d = decimal a ++ dot (decimal b ++ dot (decimal c ++ dot (decimal d)))

abbrev pub address_of : ℕ → ℕ → ℕ → ℕ → ℕ
address_of a b c d = ((a * 256 + b) * 256 + c) * 256 + d

-- 127.0.0.0/8, 10.0.0.0/8, 172.16.0.0/12, 192.168.0.0/16 and 169.254.0.0/16.
abbrev pub in_blocks : ℕ → Bool
in_blocks n =
    n / 2 ^ 24 == 127
    || n / 2 ^ 24 == 10
    || n / 2 ^ 20 == 172 * 16 + 1
    || n / 2 ^ 16 == 192 * 256 + 168
    || n / 2 ^ 16 == 169 * 256 + 254

blocks-bytes :
    (a b c d : ℕ)
    → b ≤ 255
    → c ≤ 255
    → d ≤ 255
    → in_blocks (address_of a b c d) ≡ (
        a == 127
        || a == 10
        || (a == 172 && (leb 16 b && leb b 31))
        || (a == 192 && b == 168)
        || (a == 169 && b == 254))
blocks-bytes a b c d hb hc hd =
    let first : address_of a b c d / 2 ^ 24 ≡ a = omega arith in
    let upper : address_of a b c d / 2 ^ 20 ≡ a * 16 + b / 16 = omega arith in
    let half : address_of a b c d / 2 ^ 16 ≡ a * 256 + b = omega arith in ground arith

in_range-from_nat : (low high n : ℕ) → in_range low high (from_nat n) ≡ (leb low n && leb n high)
in_range-from_nat low high n = ground arith

equals-from_nat : (n k : ℕ) → equals (from_nat n) k ≡ (n == k)
equals-from_nat n k = ground arith

is_octet-from_nat : (n : ℕ) → n ≤ 255 → is_octet (from_nat n) ≡ true
is_octet-from_nat n h = ground arith

abbrev IsPlain : ℕ → Type 0
IsPlain c = (is_digit c || c == b'.') ≡ true

digits-IsPlain : (s : Text) → All (λ c. is_digit c ≡ true) s → All IsPlain s
digits-IsPlain [] h = tt
digits-IsPlain (c ∷ s) h = (ground arith, digits-IsPlain s h.1)

dot-IsPlain :
    (s t : Text) → All (λ c. is_digit c ≡ true) s → All IsPlain t → All IsPlain (s ++ dot t)
dot-IsPlain s t h k = All-append IsPlain s (dot t) (digits-IsPlain s h) (refl, k)

quad-IsPlain : (a b c d : ℕ) → All IsPlain (quad a b c d)
quad-IsPlain a b c d =
    dot-IsPlain (decimal a) (decimal b ++ dot (decimal c ++ dot (decimal d))) (decimal-All a) (
      dot-IsPlain (decimal b) (decimal c ++ dot (decimal d)) (decimal-All b) (
        dot-IsPlain (decimal c) (decimal d) (decimal-All c)
          (digits-IsPlain (decimal d) (decimal-All d))))

map-lower : (s : Text) → All IsPlain s → map lower s ≡ s
map-lower [] h = refl
map-lower (c ∷ s) h =
    let same : (leb b'A' c && leb c b'Z') ≡ false = ground arith in
    simp same (ap (λ t. c ∷ t) (map-lower s h.1))

without_start-other : (s : Text) → All IsPlain s → without_start b'[' s ≡ s
without_start-other [] h = refl
without_start-other (c ∷ s) h = let other : c == b'[' ≡ false = ground arith in simp other refl

without_end-other : (k : ℕ) (s : Text) → All (λ c. c == k ≡ false) s → without_end k s ≡ s
without_end-other k [] h = refl
without_end-other k (c ∷ []) h = simp (h.0) refl
without_end-other k (c ∷ (d ∷ s)) h = ap (λ t. c ∷ t) (without_end-other k (d ∷ s) h.1)

without_end-append :
    (k : ℕ) (s t : Text) (c : ℕ) → without_end k (s ++ (c ∷ t)) ≡ s ++ without_end k (c ∷ t)
without_end-append k [] t c = refl
without_end-append k (x ∷ []) t c = refl
without_end-append k (x ∷ (y ∷ s)) t c = ap (λ u. x ∷ u) (without_end-append k (y ∷ s) t c)

abbrev Kept : Text → Type 0
Kept s = (truthy s ≡ true) × (without_end b'.' s ≡ s)

digits-Kept : (n : ℕ) → Kept (decimal n)
digits-Kept n = (
  decimal-truthy n,
  without_end-other b'.' (decimal n) (
      All-map {P = λ c. is_digit c ≡ true} {Q = λ c. c == b'.' ≡ false} (decimal n)
        (λ c e. ground arith) (decimal-All n)),
)

truthy-append : (s t : Text) → truthy t ≡ true → truthy (s ++ t) ≡ true
truthy-append [] t h = h
truthy-append (c ∷ s) t h = refl

dot-Kept : (s t : Text) → Kept t → Kept (s ++ dot t)
dot-Kept s [] h = absurd cc
dot-Kept s (c ∷ t) h = (
  truthy-append s (dot (c ∷ t)) refl,
  without_end-append b'.' s (c ∷ t) b'.' ∙ ap (λ u. s ++ dot u) h.1,
)

ends_with-local : (s : Text) → All IsPlain s → ends_with s (codes ".local") ≡ false
unfolding ends_with text_eq
ends_with-local [] h = refl
ends_with-local (c ∷ []) h = ground arith
ends_with-local (c ∷ (d ∷ s)) h =
    let ih = ends_with-local (d ∷ s) h.1 in
    let other : d == b'l' ≡ false = ground arith in ground arith

localhost-other : (s : Text) → All IsPlain s → text_eq s (codes "localhost") ≡ false
unfolding text_eq
localhost-other [] h = refl
localhost-other (c ∷ s) h = let other : c == b'l' ≡ false = ground arith in simp other refl

split-end : (k : ℕ) (s : Text) → All (λ c. c == k ≡ false) s → split k s ≡ s ∷ []
unfolding split
split-end k [] h = refl
split-end k (c ∷ s) h = simp (h.0, split-end k s h.1) refl

split-more :
    (k : ℕ) (s t : Text) → All (λ c. c == k ≡ false) s → split k (s ++ (k ∷ t)) ≡ s ∷ split k t
unfolding split
split-more k [] t h = let same : k == k ≡ true = ground arith in simp same refl
split-more k (c ∷ s) t h = simp (h.0, split-more k s t h.1) refl

no_dot : (n : ℕ) → All (λ c. c == b'.' ≡ false) (decimal n)
no_dot n =
    All-map {P = λ c. is_digit c ≡ true} {Q = λ c. c == b'.' ≡ false} (decimal n)
      (λ c e. ground arith) (decimal-All n)

split-quad :
    (a b c d : ℕ)
    → split b'.' (quad a b c d) ≡ decimal a ∷ (decimal b ∷ (decimal c ∷ (decimal d ∷ [])))
split-quad a b c d =
    split-more b'.' (decimal a) (decimal b ++ dot (decimal c ++ dot (decimal d))) (no_dot a)
    ∙ ap (λ r. decimal a ∷ r)
        (split-more b'.' (decimal b) (decimal c ++ dot (decimal d)) (no_dot b)
          ∙ ap (λ r. decimal b ∷ r)
              (split-more b'.' (decimal c) (decimal d) (no_dot c)
                ∙ ap (λ r. decimal c ∷ r) (split-end b'.' (decimal d) (no_dot d))))

quad-Kept : (a b c d : ℕ) → Kept (quad a b c d)
quad-Kept a b c d = dot-Kept (decimal a) (decimal b ++ dot (decimal c ++ dot (decimal d))) (
    dot-Kept (decimal b) (decimal c ++ dot (decimal d))
      (dot-Kept (decimal c) (decimal d) (digits-Kept d)))

bare_host-quad : (a b c d : ℕ) → bare_host (quad a b c d) ≡ quad a b c d
bare_host-quad a b c d =
    let plain = quad-IsPlain a b c d in
    let close = without_end-other b']' (quad a b c d) (
      All-map {P = IsPlain} {Q = λ c. c == b']' ≡ false} (quad a b c d) (λ c e. ground arith)
        plain) in
    ap (λ s. map lower (without_end b'.' (without_end b']' s)))
      (without_start-other (quad a b c d) plain)
    ∙ ap (λ s. map lower (without_end b'.' s)) close
    ∙ ap (λ s. map lower s) (quad-Kept a b c d).1
    ∙ map-lower (quad a b c d) plain

-- What the octets say, where the text is neither a name nor anything but four octets.
by_octets :
    (a b c d : ℕ)
    → a ≤ 255
    → b ≤ 255
    → c ≤ 255
    → d ≤ 255
    → (named ipv6 : Bool) → named ≡ false
    → (octets : List Number) → octets ≡ from_nat a ∷ (from_nat b ∷ (from_nat c ∷ (from_nat d ∷ [])))
    → (if named then true else if is_ipv4 octets then is_private octets else ipv6)
      ≡ in_blocks (address_of a b c d)
by_octets a b c d ha hb hc hd named ipv6 e octets f =
    let goal : (if is_ipv4 (from_nat a ∷ (from_nat b ∷ (from_nat c ∷ (from_nat d ∷ []))))
          then is_private (from_nat a ∷ (from_nat b ∷ (from_nat c ∷ (from_nat d ∷ []))))
          else ipv6)
        ≡ in_blocks (address_of a b c d) =
      simp
        (
          is_octet-from_nat a ha,
          is_octet-from_nat b hb,
          is_octet-from_nat c hc,
          is_octet-from_nat d hd,
          equals-from_nat,
          in_range-from_nat,
        )
        (sym (blocks-bytes a b c d hb hc hd)) in
    simp (e, f) goal

-- `Number` of decimal digits.
abbrev pub ReadsDigits : (Text → Number) → Type 0
ReadsDigits to_number =
    (s : Text)
    → truthy s ≡ true
    → All (λ c. is_digit c ≡ true) s
    → to_number s ≡ from_nat (number_from 0 s)

module _ (to_number parse_hex : Text → Number) where
  octets-quad :
      ReadsDigits to_number
      → (a b c d : ℕ)
      → map to_number (split b'.' (quad a b c d))
        ≡ from_nat a ∷ (from_nat b ∷ (from_nat c ∷ (from_nat d ∷ [])))
  octets-quad reads a b c d =
      let value : (n : ℕ) → to_number (decimal n) ≡ from_nat n = λ n.
        reads (decimal n) (decimal-truthy n) (decimal-All n)
        ∙ ap from_nat (number_from-decimal n) in
      ap (map to_number) (split-quad a b c d) ∙ simp (value) refl

  -- An address in the blocks, and no other, counts as local.
  pub is_local-quad :
      ReadsDigits to_number
      → (a b c d : ℕ) → a ≤ 255
      → b ≤ 255
      → c ≤ 255
      → d ≤ 255
      → is_local_network_host to_number parse_hex (quad a b c d) ≡ in_blocks (address_of a b c d)
  unfolding is_local_network_host is_local_host
  is_local-quad reads a b c d ha hb hc hd =
      let plain = quad-IsPlain a b c d in
      let word = localhost-other (quad a b c d) plain in
      let name = ends_with-local (quad a b c d) plain in
      ap (is_local_host to_number parse_hex) (bare_host-quad a b c d)
      ∙ by_octets a b c d ha hb hc hd
          (text_eq (quad a b c d) (codes "localhost") || ends_with (quad a b c d) (codes ".local"))
          (is_local_ipv6 to_number parse_hex (quad a b c d)) (ap₂ (λ x y. x || y) word name)
          (map to_number (split b'.' (quad a b c d))) (octets-quad reads a b c d)
