-- ===== src/Portcheck/Tests.antt =====
-- Answers that the theorem on the port check is tried on.
use qnatter.Common.{◌≡◌, ◌↔◌, ◌⊎◌, refl, some, none, text, ◌∷◌, ◌++◌, []}
use qnatter.Portcheck.{test_wan, test_wan_iff, port_open, port_closed, parse_transmission_response}

check_body : parse_transmission_response (text "1" ++ (10 ∷ [])) ≡ some port_open
unfolding parse_transmission_response
check_body = refl

test_wan_iff_example :
    ((test_wan none (some port_closed) ≡ port_open)
      ↔ ((none ≡ some port_open) ⊎ (some port_closed ≡ some port_open)))
    × ((test_wan none (some port_closed) ≡ port_closed)
        ↔ ((none ≡ some port_closed) × (some port_closed ≡ some port_closed)))
test_wan_iff_example = test_wan_iff none (some port_closed)
