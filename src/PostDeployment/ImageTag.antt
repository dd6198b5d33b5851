-- ===== src/PostDeployment/ImageTag.antt =====
-- parse_image_tag.py: `parse_commit_from_image`, for image tags without line breaks. Its patterns end
-- in `$` and their group has no dash, so each is a search for the place where the rest is a commit.
pub mod Laws
mod Tests
use trino_gateway.Prelude.{
  ℕ, Bool, true, false, ◌&&◌, ◌||◌, Option, none, some, List, [], ◌∷◌, ◌++◌, all, length, leb,
  get_or, ◌==◌, if◌then◌else◌,
}
use trino_gateway.Prelude.Text.{Text, codes}
use trino_gateway.Prelude.Slices.{after_prefix}

-- `[a-f0-9]`
abbrev pub is_hex : ℕ → Bool
is_hex c = leb b'a' c && leb c b'f' || leb b'0' c && leb c b'9'

-- `[a-f0-9]{7,40}`
abbrev pub is_commit : Text → Bool
is_commit s = all is_hex s && (leb 7 (length s) && leb (length s) 40)

abbrev pub or_here : Option Text → Bool → Text → Option Text
or_here (some t) here s = some t
or_here none true s = some s
or_here none false s = none

-- What stands behind the last `c`, if there is one.
unfoldable pub after_last : ℕ → Text → Option Text
after_last c [] = none
after_last c (d ∷ s) = or_here (after_last c s) (d == c) s

-- The commit, or what a later place gives.
abbrev pub commit_or : Option Text → Option Text → Option Text
commit_or none later = later
commit_or (some s) later = if is_commit s then some s else later

-- `-([a-f0-9]{7,40})$`
unfoldable pub dash_commit : Text → Option Text
dash_commit [] = none
dash_commit (c ∷ s) =
    let later = dash_commit s in if (c == b'-') && is_commit s then some s else later

-- `latest-([a-f0-9]{7,40})$`
unfoldable pub latest_commit : Text → Option Text
unfolding after_prefix
latest_commit [] = none
latest_commit (c ∷ s) =
    let later = latest_commit s in commit_or (after_prefix (codes "latest-") (c ∷ s)) later

-- The first pattern that matches.
abbrev pub first_commit : Option Text → Bool → Text → Option Text → Text
first_commit (some t) whole tag third = t
first_commit none true tag third = tag
first_commit none false tag third = get_or third []

unfoldable pub commit_of_tag : Text → Text
unfolding dash_commit latest_commit
commit_of_tag tag = first_commit (dash_commit tag) (is_commit tag) tag (latest_commit tag)

abbrev pub tag_commit : Option Text → Text
unfolding commit_of_tag
tag_commit none = []
tag_commit (some tag) = commit_of_tag tag

unfoldable pub parse_commit_from_image : Text → Text
unfolding after_last tag_commit
parse_commit_from_image image_tag =
    tag_commit (after_last b':' (get_or (after_last b'/' image_tag) image_tag))
