-- ===== src/Transfer/Paths.antt =====
-- Paths as texts: what core/transfer/ uses of os.path.
use Prim.Native.Char.{code}
use Prim.Native.String.{String, [], ◌∷◌}
use peerc.Common.{Bool, false, ◌||◌, ◌==◌, if◌then◌else◌}

has_slash : String → Bool
has_slash [] = false
has_slash (c ∷ s) = code c == 47 || has_slash s

-- The last component of a path, `os.path.basename`.
unfoldable pub basename : String → String
unfolding has_slash
basename [] = ""
basename (c ∷ s) =
    let rest = basename s in if has_slash s then rest else if code c == 47 then s else c ∷ s
