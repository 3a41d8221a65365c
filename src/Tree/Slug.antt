-- ===== src/Tree/Slug.antt =====
-- `IsValidSlug` of backend/internal/core/tree/slug_service.go. Lower case is ASCII here; a slug with
-- other letters is refused by the pattern whatever its lower case.
pub mod Generate
use komachi.Base.{
  ℕ, Text, codes, Bool, false, Option, none, some, List, [], ◌∷◌, ◌==◌, ◌||◌, ◌&&◌, not, leb, any,
  all, lower, starts_with, ends_with, split, if◌then◌else◌, is_none,
}

pub data SlugError : Type 0 where
  slug_empty slug_reserved slug_characters slug_hyphen : SlugError

abbrev pub reserved_slugs : List Text
reserved_slugs =
    codes "e"
    ∷ codes "edit"
    ∷ codes "api"
    ∷ codes "assets"
    ∷ codes "branding"
    ∷ codes "index"
    ∷ codes "users"
    ∷ codes "user"
    ∷ codes "login"
    ∷ codes "history"
    ∷ codes "settings"
    ∷ []

-- `[a-zA-Z0-9]`
abbrev pub is_alphanumeric : ℕ → Bool
is_alphanumeric c =
    (leb b'a' c && leb c b'z') || (leb b'A' c && leb c b'Z') || (leb b'0' c && leb c b'9')

-- `[a-zA-Z0-9]+`
abbrev pub is_word : Text → Bool
is_word [] = false
is_word (c ∷ s) = is_alphanumeric c && all is_alphanumeric s

-- `^[a-zA-Z0-9]+(-[a-zA-Z0-9]+)*$`: words with one hyphen between each two.
unfoldable pub slug_pattern : Text → Bool
slug_pattern s = all is_word (split b'-' s)

unfoldable pub slug_error : Text → Option SlugError
unfolding slug_pattern
slug_error slug =
    if slug == []
    then some slug_empty
    else if any (λ r. r == lower slug) reserved_slugs
    then some slug_reserved
    else if not (slug_pattern slug)
    then some slug_characters
    else if starts_with b'-' slug || ends_with b'-' slug
    then some slug_hyphen
    else none

abbrev pub is_valid_slug : Text → Bool
is_valid_slug slug = is_none (slug_error slug)
