-- ===== src/Auth/Tokens.antt =====
-- The rows of the tables `sessions` and `pats` (src/database/models/session_item.rs and
-- pat_item.rs), and `SessionMetadata` (src/auth/session.rs).
use labrinth.Base.{ℕ, String, Option}

pub record SessionMetadata : Type 0 where
  pub city : Option String
  pub country : Option String
  pub ip : String
  pub os : Option String
  pub platform : Option String
  pub user_agent : String

pub record Session : Type 0 where
  pub id : ℕ
  pub session : String
  pub user_id : ℕ
  pub created : ℕ
  pub last_login : ℕ
  pub expires : ℕ
  pub refresh_expires : ℕ
  pub metadata : SessionMetadata

pub record PersonalAccessToken : Type 0 where
  pub id : ℕ
  pub name : String
  pub access_token : String
  pub scopes : ℕ
  pub user_id : ℕ
  pub created : ℕ
  pub expires : ℕ
  pub last_used : Option ℕ
