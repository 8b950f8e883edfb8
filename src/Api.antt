-- ===== src/Api.antt =====
-- The errors of the routes (src/auth/mod.rs, src/routes/mod.rs) with their HTTP status, and the
-- responses. What an error of another package carries is left out, the texts of the source stay.
use labrinth.Base.{String}

pub data AuthenticationError : Type 0 where
  env sqlx database ser_de reqwest file_hosting decoding mail invalid_credentials
        invalid_auth_method invalid_client_id duplicate_user socket_error url :
      AuthenticationError

pub data ApiError : Type 0 where
  env file_hosting database sqlx_database clickhouse json search indexing turnstile decoding
        image_parse password_hashing password_strength_check mail :
      ApiError
  authentication : AuthenticationError → ApiError
  xml custom_authentication invalid_input validation payments discord : String → ApiError

-- What a route answers: a JSON body, 204 or 404.
pub data Response {ℓ} (B : Type ℓ) : Type ℓ where
  json : B → Response B
  no_content : Response B
  not_found : Response B
