-- ===== src/Files/Paths.antt =====
-- dirname and basepath of file-systems/file-system.c on strings.
use staxus.Base.{
  ℕ, ◌+◌, ◌≡◌, refl, ◌≢◌, ap, ◌∙◌, [], ◌∷◌, ◌++◌, arith, ◌==◌, if◌then◌else◌, take, length, All,
  ==_of_ne,
}
use staxus.Files.{Text}

-- The loop of dirname: the index of the last '/', `last` if there is none. `i` counts `p` from `path`.
unfoldable pub last_slash : ℕ → ℕ → Text → ℕ
last_slash i last [] = last
last_slash i last (c ∷ cs) = last_slash (i + 1) (if c == b'/' then i else last) cs

-- With no '/' behind the first character the result is `p`, the empty string at the end of `path`.
unfoldable pub dirname : Text → Text
unfolding last_slash
dirname path = if last_slash 0 0 path == 0 then [] else take (last_slash 0 0 path) path

-- The loop of basepath: `last` is the string behind the last '/' that was met.
unfoldable pub base_from : Text → Text → Text
base_from last [] = last
base_from last (c ∷ cs) = base_from (if c == b'/' then cs else last) cs

unfoldable pub basepath : Text → Text
unfolding base_from
basepath path = base_from path path

last_slash-none :
    (name : Text) (i last : ℕ) → All (λ c. c ≢ b'/') name → last_slash i last name ≡ last
unfolding last_slash
last_slash-none [] i last h = refl
last_slash-none (c ∷ cs) i last h = rw (==_of_ne c b'/' h.0) (last_slash-none cs (i + 1) last h.1)

last_slash-append :
    (dir name : Text) (i last : ℕ)
    → All (λ c. c ≢ b'/') name
    → last_slash i last (dir ++ (b'/' ∷ name)) ≡ i + length dir
unfolding last_slash
last_slash-append [] name i last h = last_slash-none name (i + 1) i h ∙ omega arith
last_slash-append (c ∷ cs) name i last h =
    last_slash-append cs name (i + 1) (if c == b'/' then i else last) h ∙ omega arith

base_from-none : (name last : Text) → All (λ c. c ≢ b'/') name → base_from last name ≡ last
unfolding base_from
base_from-none [] last h = refl
base_from-none (c ∷ cs) last h = rw (==_of_ne c b'/' h.0) (base_from-none cs last h.1)

base_from-append :
    (dir name last : Text) → All (λ c. c ≢ b'/') name → base_from last (dir ++ (b'/' ∷ name)) ≡ name
unfolding base_from
base_from-append [] name last h = base_from-none name name h
base_from-append (c ∷ cs) name last h =
    base_from-append cs name (if c == b'/' then cs ++ (b'/' ∷ name) else last) h

add_zero : (n : ℕ) → 0 + n ≡ n
add_zero n = omega arith

take-append : (xs ys : Text) → take (length xs) (xs ++ ys) ≡ xs
take-append [] ys = refl
take-append (x ∷ xs) ys = ap (λ t. x ∷ t) (take-append xs ys)

-- A path is a directory that is not empty, a '/' and a name without '/': dirname gives the directory
-- and basepath the name.
pub dirname-basepath :
    (c : ℕ) (dir name : Text)
    → All (λ c. c ≢ b'/') name
    → (dirname (c ∷ (dir ++ (b'/' ∷ name))) ≡ c ∷ dir)
      × (basepath (c ∷ (dir ++ (b'/' ∷ name))) ≡ name)
unfolding dirname basepath
dirname-basepath c dir name h =
    let path = c ∷ dir in
    (
      let found = last_slash-append path name 0 0 h ∙ add_zero (length path) in
          rw found (rw (==_of_ne (length path) 0 (omega arith)) (take-append path (b'/' ∷ name))),
      base_from-append path name (path ++ (b'/' ∷ name)) h,
    )
