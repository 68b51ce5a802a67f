-- ===== src/Formats/Userinfo.antt =====
-- `parse_userinfo`.
use redlib.Prelude.{ℕ, ◌≡◌, refl, true, false, List, [], ◌∷◌, ◌++◌}
use redlib.Formats.{parse_userinfo}
use redlib.Formats.Query.{Lacks, cut_at-append, cut_at-none}

-- A name and a password with a colon between them are read back if the name holds no colon, and a
-- text without a colon is refused.
pub parse_userinfo_lem :
    (name password : List ℕ)
    → Lacks b':' name
    → (parse_userinfo (name ++ b':' ∷ password)
        ≡ record { username = name; password = password; ok = true })
      × (parse_userinfo name ≡ record { username = []; password = []; ok = false })
unfolding parse_userinfo
parse_userinfo_lem name password h = (
  rw (parse_userinfo, cut_at-append b':' name password h) refl,
  rw (parse_userinfo, cut_at-none b':' name h) refl,
)
