-- ===== src/Folders.antt =====
-- `os.makedirs` as the extractions of plugin/javahost/core use it: the directories that a call makes.
pub mod Contained
use aa_panel_tomcat_plugin.Prelude.{
  Bool, not, List, [], ◌∷◌, ◌++◌, Text, ◌==◌, if◌then◌else◌, filter,
}

-- the paths that end before a slash of the path `front ++ path`, from that of `path` on
unfoldable pub heads : Text → Text → List Text
heads front [] = []
heads front (c ∷ s) =
    let rest = heads (front ++ (c ∷ [])) s in if c == b'/' then front ∷ rest else rest

-- `os.makedirs(os.path.dirname(path), exist_ok=True)`: the missing ones of the directories on the
-- way to the path
unfoldable pub make_parents : (Text → Bool) → Text → List Text
make_parents exists path = filter (λ p. not (exists p)) (heads [] path)

-- `os.makedirs(path, exist_ok=True)`
unfoldable pub makedirs : (Text → Bool) → Text → List Text
makedirs exists path = filter (λ p. not (exists p)) (heads [] path ++ (path ∷ []))
