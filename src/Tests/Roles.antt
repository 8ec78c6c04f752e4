-- ===== src/Tests/Roles.antt =====
-- The theorems on profiles at concrete inputs.
use tx_ide_rs.Prelude.{◌≡◌, refl, Bool, true, [], ◌∷◌, Text, codes, text_eq, contains, All}
use tx_ide_rs.Result.{Res, ok}
use tx_ide_rs.Roles.{Profiles, Resolved, resolve}
use tx_ide_rs.Roles.Granted.{IsGranted, resolve-IsGranted}
use tx_ide_rs.Roles.Repeated.{resolve-again}

abbrev sample_profiles : Profiles
sample_profiles = record { profile_dirs = codes "r" ∷ []; skill_dirs = codes "s" ∷ codes "t" ∷ [] }

-- The file system has a role and a skill.
abbrev has_file : Text → Bool
has_file path = contains (codes "r/a.md" ∷ codes "s/k/SKILL.md" ∷ []) path

abbrev read_text : Text → Res Text Text
read_text path = ok (codes "---\nskills: [k]\n---\nA")

abbrev sample_resolved : Resolved
sample_resolved = record { text = codes "A"; skill_dirs = codes "s/k" ∷ [] }

sample-resolves : resolve has_file read_text sample_profiles (codes "a" ∷ []) ≡ ok sample_resolved
unfolding resolve text_eq contains
sample-resolves = refl

resolve-IsGranted_example : All (IsGranted has_file (codes "s" ∷ codes "t" ∷ [])) (codes "s/k" ∷ [])
resolve-IsGranted_example =
    resolve-IsGranted has_file read_text sample_profiles (codes "a" ∷ []) sample_resolved
      sample-resolves

a-named : contains (codes "a" ∷ []) (codes "a") ≡ true
unfolding contains text_eq
a-named = refl

resolve-again_example :
    resolve has_file read_text sample_profiles (codes "a" ∷ codes "a" ∷ [])
    ≡ resolve has_file read_text sample_profiles (codes "a" ∷ [])
resolve-again_example =
    resolve-again has_file read_text sample_profiles (codes "a" ∷ []) (codes "a") a-named
