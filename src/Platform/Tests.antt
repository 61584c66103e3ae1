-- ===== src/Platform/Tests.antt =====
-- A pod of internal/platform/ops.go whose database does not answer.
use wallet_ledger.Base.{◌≡◌, ◌⊎◌, false, none, some, [], ◌∷◌}
use wallet_ledger.Platform.{Ops, readyz}
use wallet_ledger.Platform.Ready.{Passing, readyz_lem}

abbrev pod : Ops
pod = record { checks = ("kafka", none) ∷ ("postgres", some "timeout") ∷ []; draining = false }

readyz_lem_example :
    ((readyz pod).0 ≡ 200) × (pod.draining ≡ false) × Passing pod.checks
    ⊎ ((readyz pod).0 ≡ 503) × ¬ ((pod.draining ≡ false) × Passing pod.checks)
readyz_lem_example = readyz_lem pod
