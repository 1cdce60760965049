-- ===== src/Stamp.antt =====
-- The build stamp of build.rs: the lines that the build script prints for cargo. What the
-- environment, git and the clock answer is given.
mod Tests
use ferro_s.Base.{
  ℕ, List, [], ◌∷◌, ◌++◌, Option, none, some, Bool, Text, codes, trim, if◌then◌else◌,
}
use ferro_s.Base.Decimal.{dec}

-- What the build script finds: the two variables, where they are set; what git prints, where it
-- runs and succeeds; whether the paths of the checkout exist; and the seconds since the epoch, 0
-- before it.
pub record Checkout : Type 0 where
  pub commit_variable : Option Text
  pub describe_variable : Option Text
  pub rev_parse : Option Text
  pub describe : Option Text
  pub exists : Text → Bool
  pub epoch : ℕ

-- The text without blanks at its ends, or `other` where nothing is left.
abbrev trimmed_or : Text → Text → Text
trimmed_or [] other = other
trimmed_or (c ∷ s) other = c ∷ s

abbrev from_git : Option Text → Text
from_git none = codes "unknown"
from_git (some text) = trimmed_or (trim text) (codes "unknown")

unfoldable pub git_or_env : Option Text → Option Text → Text
git_or_env none output = from_git output
git_or_env (some value) output = trimmed_or (trim value) (from_git output)

abbrev rerun_if_changed : (Text → Bool) → List Text → List Text
rerun_if_changed exists [] = []
rerun_if_changed exists (path ∷ paths) =
    let rest = rerun_if_changed exists paths in
    if exists path then (codes "cargo:rerun-if-changed=" ++ path) ∷ rest else rest

unfoldable pub stamp_version : Checkout → List Text
unfolding git_or_env
stamp_version c =
    codes "cargo:rerun-if-env-changed=FERROS3_GIT_COMMIT"
    ∷ codes "cargo:rerun-if-env-changed=FERROS3_GIT_DESCRIBE"
    ∷ (rerun_if_changed c.exists (codes ".git/HEAD" ∷ codes ".git/refs" ∷ [])
        ++ ((codes "cargo:rustc-env=FERROS3_GIT_COMMIT="
              ++ git_or_env c.commit_variable c.rev_parse)
            ∷ (codes "cargo:rustc-env=FERROS3_GIT_DESCRIBE="
                ++ git_or_env c.describe_variable c.describe)
            ∷ (codes "cargo:rustc-env=FERROS3_BUILD_EPOCH=" ++ dec c.epoch)
            ∷ []))
