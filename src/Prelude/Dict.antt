-- ===== src/Prelude/Dict.antt =====
-- A Python dict, as the function that looks a key up.
use firecrawl_manger.Prelude.Tests.{Equality, ◌==◌, if◌then◌else◌}
use mathlib.Core.Option.{Option, none, some}

abbrev pub Dict {ℓ} : Type ℓ → Type ℓ → Type ℓ
Dict K V = K → Option V

abbrev pub empty {ℓ} : {K V : Type ℓ} → Dict K V
empty j = none

-- `d[k] = v`
abbrev pub insert {ℓ} : {K V : Type ℓ} ⦃q : Equality K⦄ → K → V → Dict K V → Dict K V
insert k v d j = if j == k then some v else d j

-- `d.get(k, default)`
abbrev pub get {ℓ} : {K V : Type ℓ} → Dict K V → K → V → V
get d k default = elim (d k) [ none ↦ default | some v ↦ v ]
