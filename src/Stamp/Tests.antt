-- ===== src/Stamp/Tests.antt =====
-- A checkout without git, and one with a variable that is blank.
use ferro_s.Base.{none, some, codes, ◌≡◌, refl}
use ferro_s.Base.Run.{texts}
use ferro_s.Stamp.{git_or_env}

no_git : git_or_env none none ≡ codes "unknown"
unfolding git_or_env
no_git = refl

blank : git_or_env (some (codes "  ")) (some (codes "1f2e3d\n")) ≡ codes "1f2e3d"
unfolding git_or_env texts
blank = refl
