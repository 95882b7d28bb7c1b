-- ===== src/Forward/External/Tests.antt =====
-- Tests of the external programs.
use qnatter.Common.{
  ℕ, zero, suc, ◌≡◌, refl, ◌<◌, arith, true, false, none, some, [], ◌∷◌, bytes_eq, text, pos,
}
use qnatter.Config.Numbers.{atoi, read_digits}
use qnatter.Config.Servers.{strip}
use qnatter.Forward.External.{
  older, compare_version, check_external, check_output, find_version, version_of, match_parts,
  behind_digits, check_nftables, socat_arguments,
}
use qnatter.Forward.External.Versions.{part, IsBefore, compare_version_iff}
use qnatter.Forward.Nftables.{decimal, digits, leading_digits}

same_front : (j : ℕ) → j < 2 → part (1 ∷ 7 ∷ []) j ≡ part (1 ∷ 7 ∷ 2 ∷ []) j
unfolding part
same_front zero h = refl
same_front (suc zero) h = refl
same_front (suc (suc j)) h = omega arith

missing_patch : IsBefore (part (1 ∷ 7 ∷ [])) (part (1 ∷ 7 ∷ 2 ∷ []))
missing_patch = (2, same_front, unfold part in omega arith)

compare_version_iff_example : compare_version (1 ∷ 7 ∷ []) (1 ∷ 7 ∷ 2 ∷ []) ≡ older
compare_version_iff_example = (compare_version_iff (1 ∷ 7 ∷ []) (1 ∷ 7 ∷ 2 ∷ [])).1 missing_patch

version_checks :
    (check_external (text "socat") (some (text "socat version 1.7.4.1 on")) ≡ true)
    × (check_external (text "gost") (some (text "gost v2.2")) ≡ false)
    × (check_external (text "gost") (some (text "gost 2.11.5")) ≡ true)
    × (check_nftables (some (text "nftables v0.9.10 (x)")) ≡ true)
    × (check_nftables none ≡ false)
unfolding check_external check_nftables check_output find_version version_of compare_version
    match_parts behind_digits leading_digits strip atoi read_digits bytes_eq
version_checks = (refl, refl, refl, refl, refl)

arguments :
    socat_arguments (pos 0) (pos 0) (record {
      ip = text "0.0.0.0";
      snat_ip = [];
      port = pos 4000;
      target_ip = text "10.0.0.3";
      target_port = pos 80;
      udp = true;
      interface = [];
      route_mark = [];
      route_table = [];
      route_priority = [];
    })
    ≡ text "-T60"
      ∷ text "UDP4-LISTEN:4000,bind=0.0.0.0,reuseaddr,fork,max-children=128"
      ∷ text "UDP4:10.0.0.3:80"
      ∷ []
unfolding socat_arguments decimal digits bytes_eq
arguments = refl
