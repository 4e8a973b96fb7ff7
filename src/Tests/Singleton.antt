-- ===== src/Tests/Singleton.antt =====
-- Examples for Singleton.
use net_lib_wrapper.Prelude.{◌≡◌, refl, none}
use net_lib_wrapper.Singleton.{System, Reach, fresh}
use net_lib_wrapper.Singleton.Race.{Reach-two}

Reach-two_example :
    (s : System) × Reach (λ _. none) fresh s × (s.shared.created ≡ 2) × (s.shared.deleted ≡ 0)
Reach-two_example = Reach-two (λ _. none) (λ o. refl)
