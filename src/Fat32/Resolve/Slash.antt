-- ===== src/Fat32/Resolve/Slash.antt =====
-- findFAT32Entry on a path that begins with '/'.
use staxus.Base.{
  ℕ, suc, ◌+◌, ◌≡◌, refl, ◌≢◌, ap, ◌∙◌, subst, ==_of_ne, some, [], ◌∷◌, length, drop, All, arith,
}
use staxus.Files.{Text}
use staxus.Fat32.{Machine, FatMount}
use staxus.Fat32.Entries.{FatEntry}
use staxus.Fat32.Search.{component, bad_cluster, find_entry}
use staxus.Fat32.Resolve.{rest_of, IsRoot, Resolves, itself, at_end, through}
use staxus.Fat32.Resolve.Once.{find_entry-Resolves}

component_self : (name : Text) → All (λ c. c ≢ b'/') name → component name ≡ name
component_self [] h = refl
component_self (c ∷ cs) h = rw (==_of_ne c b'/' h.0, component_self cs h.1) refl

drop-all : (name : Text) → drop (length name) name ≡ []
drop-all [] = refl
drop-all (c ∷ cs) = drop-all cs

Resolves-empty :
    {W : Type 0} (m : Machine W) (t : FatMount W) (start : ℕ) (e : FatEntry)
    → Resolves m t [] start e
    → IsRoot start e
Resolves-empty m t start e (itself _ _ _ empty root) = root
Resolves-empty m t start e (at_end _ _ _ some_chars ends named) = absurd (some_chars refl)
Resolves-empty m t start e (through _ _ d _ some_chars more named dir below) =
    absurd (some_chars refl)

Resolves-leading_slash :
    {W : Type 0} (m : Machine W) (t : FatMount W) (name : Text) (start : ℕ) (e : FatEntry)
    → All (λ c. c ≢ b'/') name
    → Resolves m t (b'/' ∷ name) start e
    → (e.name ≡ []) × (e.attr ≡ 0x10) × (e.parent_cluster ≡ bad_cluster)
Resolves-leading_slash m t name start e h (itself _ _ _ empty root) =
    (root.name, root.attr, root.parent)
Resolves-leading_slash m t name start e h (at_end _ _ _ some_chars ends named) =
    let same : length (component name) ≡ length name = ap length (component_self name h) in
    absurd (ground (arith, same, ends))
Resolves-leading_slash m t name start e h (through _ _ d _ some_chars more named dir below) =
    let whole : length (component name) + 1 ≡ suc (length name) =
      omega (arith, ap length (component_self name h)) in
    let same : rest_of (b'/' ∷ name) ≡ [] = ap (λ n. drop n (b'/' ∷ name)) whole ∙ drop-all name in
    let root =
      Resolves-empty m t d.cluster e (subst (λ p. Resolves m t p d.cluster e) same below) in
    (root.name, root.attr, root.parent)

-- For a path that is a '/' and a name without '/', findFAT32Entry does not return the entry of the
-- directory with this name, but at most the entry that it makes up for a directory: no file is found
-- under such a path.
pub find_entry-leading_slash :
    {W : Type 0} (m : Machine W) (t : FatMount W) (f : ℕ) (name : Text) (start : ℕ) (w after : W)
    (e : FatEntry)
    → All (λ c. c ≢ b'/') name
    → find_entry m t f (b'/' ∷ name) start w ≡ some (some e, after)
    → (e.name ≡ []) × (e.attr ≡ 0x10) × (e.parent_cluster ≡ bad_cluster)
find_entry-leading_slash m t f name start w after e h found =
    Resolves-leading_slash m t name start e h
      (find_entry-Resolves m t f (b'/' ∷ name) start w after e found)
