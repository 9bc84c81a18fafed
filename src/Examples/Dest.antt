-- ===== src/Examples/Dest.antt =====
-- internal/dest/dest.go at concrete inputs. Addresses are numbers: below 1000 they are IPv4 addresses, of
-- which 127 and 10 stand for the loopback and a private one.
use censor_pulse_cli.Common.{
  All, Bool, Memᴰ, Option, [], arith, false, inl, ltb, not, refl, some, true, ℕ, ◌==◌, ◌↔◌, ◌∷◌,
  ◌≡◌, ◌≢◌,
}
use censor_pulse_cli.Dest.{
  Addresses, probe_addrs, compare_views, View, compare_answers, compare_public, shares_family,
  intersects, is_bogon, is_bogon_plain, is_one_of, is_reserved,
}
use censor_pulse_cli.Dest.Public.{probe_addrs-IsGood, IsGood}
use censor_pulse_cli.Dest.Grounds.{Grounds, compare_views-Grounds}

same_number : (x y : ℕ) → ((x == y) ≡ true) ↔ (x ≡ y)
same_number x y = (λ h. ground (arith, h), λ h. ground (arith, h))

abbrev numbers : Addresses
numbers = record {
  Addr = ℕ;
  same = λ x y. x == y;
  same_iff = same_number;
  unmap = λ x. x;
  unmap_unmap = λ x. refl;
  is_valid = λ x. not (x == 0);
  is_global_unicast = λ x. not (x == 127);
  is_private = λ x. x == 10;
  is_4 = λ x. ltb x 1000;
  octets = λ x. (x, 0, 0, 1);
}

abbrev system_view : View numbers
system_view = record { ips = 10 ∷ 8 ∷ []; rcode = "NOERROR" }

abbrev trusted_view : View numbers
trusted_view = record { ips = 2001 ∷ 8 ∷ []; rcode = "NOERROR" }

abbrev ipv4_only : Option (ℕ → Bool)
ipv4_only = some (λ x. ltb x 1000)

public_8 : is_bogon numbers 8 ≡ false
unfolding is_bogon is_bogon_plain is_reserved
public_8 = refl

probe_addrs-IsGood_example :
    All (IsGood numbers ipv4_only) (probe_addrs numbers system_view trusted_view ipv4_only).0
    × ((probe_addrs numbers system_view trusted_view ipv4_only).0 ≢ [])
probe_addrs-IsGood_example =
    probe_addrs-IsGood numbers system_view trusted_view ipv4_only 8
      (inl (Memᴰ.tail (Memᴰ.head refl))) public_8 refl

abbrev honest_view : View numbers
honest_view = record { ips = 8 ∷ 9 ∷ []; rcode = "NOERROR" }

-- The honest resolver shares an address with the trusted ones, and the other one gives a sinkhole.
compare_views-Grounds_example :
    Grounds numbers system_view trusted_view (compare_views numbers system_view trusted_view)
compare_views-Grounds_example = compare_views-Grounds numbers system_view trusted_view

system_tampered : (compare_views numbers system_view trusted_view).reason ≡ "bogon"
unfolding compare_views compare_answers is_bogon is_bogon_plain is_reserved
system_tampered = refl

honest_excused : (compare_views numbers honest_view trusted_view).tampered ≡ false
unfolding compare_views compare_answers compare_public is_bogon is_bogon_plain is_reserved
    intersects is_one_of shares_family
honest_excused = refl
