-- ===== src/DnsClient/Reverse.antt =====
-- src/dns_client.rs: the names that are asked for, and where an answer comes from.
use mathlib.Core.List.{reverse, reverse-append}
use dmarc_report_viewer.Common.{
  ℕ, zero, suc, ◌*◌, ◌/◌, ◌%◌, ◌≡◌, refl, ap, ◌∙◌, String, List, [], ◌∷◌, ◌++◌, nat_eq, arith,
}
use dmarc_report_viewer.Common.Texts.{concat, join}
use dmarc_report_viewer.DnsClient.{octets, nibbles, hex, ipv6_query}

-- The `count` lowest hexadecimal digits of a number, the lowest first
abbrev pub low_digits : ℕ → ℕ → List String
low_digits zero n = []
low_digits (suc count) n = hex (n % 16) ∷ low_digits count (n / 16)

nibbles-append : (xs ys : List ℕ) → nibbles (xs ++ ys) ≡ nibbles xs ++ nibbles ys
unfolding nibbles
nibbles-append [] ys = refl
nibbles-append (x ∷ xs) ys = rw (nibbles-append xs ys) refl

reverse-nibbles-octets :
    (count n : ℕ) → reverse (nibbles (octets count n)) ≡ low_digits (count * 2) n
unfolding octets nibbles
reverse-nibbles-octets zero n = refl
reverse-nibbles-octets (suc count) n =
    let low : n % 256 % 16 ≡ n % 16 = omega arith in
    let high : n % 256 / 16 ≡ n / 16 % 16 = omega arith in
    let rest : n / 256 ≡ n / 16 / 16 = omega arith in
    let twice : suc count * 2 ≡ suc (suc (count * 2)) = omega arith in
    let split = nibbles-append (octets count (n / 256)) ((n % 256) ∷ []) in
    ap reverse split
    ∙ reverse-append (nibbles (octets count (n / 256))) (nibbles ((n % 256) ∷ []))
    ∙ rw (low, high, rest, twice, reverse-nibbles-octets count (n / 16 / 16)) refl

-- The name that is asked for an IPv6 address is its 32 hexadecimal digits, the lowest first, with dots
-- between them, and `.ip6.arpa`.
pub ipv6_query_lem : (n : ℕ) → ipv6_query n ≡ concat (join "." (low_digits 32 n) ∷ ".ip6.arpa" ∷ [])
unfolding ipv6_query
ipv6_query_lem n =
    ap (λ digits. concat (join "." digits ∷ ".ip6.arpa" ∷ [])) (reverse-nibbles-octets 16 n)
