-- ===== src/PostDeployment/ImageTag/Tests.antt =====
-- Image tags and the commits that are read from them.
use trino_gateway.Prelude.{◌≡◌, refl, ◌++◌, ◌∷◌, []}
use trino_gateway.Prelude.Text.{codes}
use trino_gateway.PostDeployment.ImageTag.{tag_commit, commit_of_tag, parse_commit_from_image}
use trino_gateway.PostDeployment.ImageTag.Laws.{parse_commit_from_image-roundtrip}

-- A numeric part of a version is taken for a commit.
parse_date : parse_commit_from_image (codes "registry.com/app:v1.2.3-20240101") ≡ codes "20240101"
unfolding parse_commit_from_image tag_commit commit_of_tag
parse_date = refl

parse_version : parse_commit_from_image (codes "registry.com/app:v1.2.3") ≡ []
unfolding parse_commit_from_image tag_commit commit_of_tag
parse_version = refl

parse_untagged : parse_commit_from_image (codes "registry.com:5000/app") ≡ []
unfolding parse_commit_from_image tag_commit commit_of_tag
parse_untagged = refl

parse_bare : parse_commit_from_image (codes "app:abc123def") ≡ codes "abc123def"
unfolding parse_commit_from_image tag_commit commit_of_tag
parse_bare = refl

parse_commit_from_image-roundtrip_example :
    parse_commit_from_image (
      codes "registry.com:5000/team"
      ++ (b'/' ∷ (codes "app" ++ (b':' ∷ (codes "v1.2.3" ++ (b'-' ∷ codes "abc123def"))))))
    ≡ codes "abc123def"
parse_commit_from_image-roundtrip_example =
    parse_commit_from_image-roundtrip (codes "registry.com:5000/team") (codes "app")
      (codes "v1.2.3") (codes "abc123def") refl refl refl refl
