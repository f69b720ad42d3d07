-- ===== src/Authentication/Issued.antt =====
-- What `tgctl credentials` leaves in the file system.
use tateyama_bootstrap.Prelude.{
  ℕ, ◌≡◌, ◌≢◌, ap, ◌≤◌, ◌⊎◌, List, [], ◌∷◌, Bool, true, false, not, ◌&&◌, ◌||◌, if◌then◌else◌,
  le→not-ltb,
}
use tateyama_bootstrap.Process.Os.{ok, err}
use tateyama_bootstrap.Authentication.{
  Text, gives, empty, Flags, Handler, World, prompt, set_expiration, auth_options,
  check_not_more_than_one,
}
use tateyama_bootstrap.Authentication.Issue.{
  Peer, Disk, Effect, written, restricted, Issued, returns, escapes, waits, contents_of, Session,
  issue_for, after_line, max_expiration, issue_at, open_session, refused, issue_fresh,
}

-- The encrypted credential of the session that these flags open.
abbrev pub Sent : World → Flags → Peer → Text → Type 0
Sent w f p text = (s : Session) × (open_session w f p ≡ gives s) × (text ≡ s.encrypted_credential)

-- So it is for the user of the flags, or else for the one that is typed first.
abbrev pub Obtained : World → Flags → Peer → Text → Type 0
Obtained w f p text =
    ((empty f.user ≡ false) × Sent w f p text)
    ⊎ ((user : Text) × (empty f.user ≡ true)
        × (prompt w.typed ≡ gives user)
        × Sent (record w { typed = after_line w.typed }) (record f { user = user }) p text)

module _ (d : Disk) (path : Text) (may_replace : Bool) (Told : Text → Type 0) where
  -- The file has a text that is told, and nothing else.
  abbrev pub Wrote : Bool → List Effect → List Effect → Type 0
  Wrote protected es later =
      (text : Text) × (text ≢ [])
      × Told text
      × (d.can_open path ≡ true)
      × (d.can_restrict path ≡ protected)
      × ((d.exists path ≡ false) ⊎ (may_replace ≡ true))
      × (es ≡ written path (contents_of text []) ∷ later)

  -- What the command may leave behind: nothing, or the file, with its permissions if it returns ok.
  unfoldable pub Careful : Issued → Type 0
  Careful (returns ok es) = Wrote true es (restricted path ∷ [])
  Careful (returns err es) = (es ≡ []) ⊎ Wrote false es []
  Careful escapes = Unit {0}
  Careful waits = Unit {0}

module _ (w : World) (f : Flags) (p : Peer) (d : Disk) (path : Text) where
  abbrev may : Bool
  may = f.overwrite && f.overwritable

in_range :
    (f : Flags) (k : ℕ)
    → k ≤ 365
    → refused (record f { expiration = k }) ≡ refused (record f { expiration = 0 })
unfolding refused
in_range f k c =
    ap
      (λ x.
        x
        || (not (empty f.credentials)
            || (not (empty f.auth_token) || (not f.overwritable && f.overwrite))))
      (ap (λ x. f.negative || x) (le→not-ltb k max_expiration c))

-- Every number of days that is allowed gives the same result as 0 days.
pub issue_at-expiration :
    (w : World) (f : Flags) (p : Peer) (d : Disk) (path : Text) (h : Handler) (days : ℕ)
    → days ≤ 365
    → issue_at w (record f { expiration = days }) p d path h
      ≡ issue_at w (record f { expiration = 0 }) p d path h
unfolding issue_at issue_for set_expiration open_session auth_options check_not_more_than_one
issue_at-expiration w f p d path h days a =
    ap (λ b. if b then returns err [] else issue_fresh w f p d path h) (in_range f days a)
