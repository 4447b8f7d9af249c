-- ===== src/Routes/Tagged.antt =====
-- The headers If-Match and ETag of src/routes/metadata.rs and src/routes/uniform_crud.rs, as far as
-- they are the standard library's: `str::trim_matches` and the response with its tag.
use ovp_data_api.Base.{ℕ, Text, ◌==◌, [], ◌∷◌, ◌++◌, if◌then◌else◌}
use ovp_data_api.Ids.{ETag}

unfoldable pub trim_start : ℕ → Text → Text
trim_start q [] = []
trim_start q (b ∷ s) = if b == q then trim_start q s else b ∷ s

unfoldable pub trim_end : ℕ → Text → Text
trim_end q [] = []
trim_end q (b ∷ s) = ended (trim_end q s)
  where
    ended : Text → Text
    ended [] = if b == q then [] else b ∷ []
    ended (c ∷ t) = b ∷ c ∷ t

-- str::trim_matches
unfoldable pub trim_matches : ℕ → Text → Text
unfolding trim_start trim_end
trim_matches q s = trim_end q (trim_start q s)

-- A response of status 200 with the header ETag.
pub record Tagged (A : Type 0) : Type 0 where
  pub etag_header : Text
  pub body : A

-- format!("\"{}\"", etag.as_str())
unfoldable pub quoted : ETag → Text
quoted etag = b'"' ∷ etag.as_str ++ b'"' ∷ []
