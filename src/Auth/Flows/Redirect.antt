-- ===== src/Auth/Flows/Redirect.antt =====
-- `AuthProvider::get_redirect_url` of src/auth/flows.rs. The variables of the environment and the
-- package urlencoding are functions.
use Prim.Native.String
use labrinth.Base.{String, Option, Result, ok, ok_or, ◌>>=◌}
use labrinth.Users.{AuthProvider, github, discord, microsoft, gitlab, google, steam}
use labrinth.Api.{AuthenticationError, env as missing_variable}

infixr 65 ◌<>◌
abbrev pub ◌<>◌ : String → String → String
s <> t = String.◌++◌ s t

module _ (var : String → Option String) (encode : String → String) where
  -- `dotenvy::var(..)?`
  abbrev variable : String → Result AuthenticationError String
  variable name = ok_or (var name) missing_variable

  abbrev pub site_url : AuthProvider → String → String → String → Result AuthenticationError String
  site_url github state self_addr redirect_uri = do
    client_id ← variable "GITHUB_CLIENT_ID"
    ok (
        "https://github.com/login/oauth/authorize?client_id="
        <> (client_id
            <> ("&state="
                <> (state <> ("&scope=read%3Auser%20user%3Aemail&redirect_uri=" <> redirect_uri)))))
  site_url discord state self_addr redirect_uri = do
    client_id ← variable "DISCORD_CLIENT_ID"
    ok (
        "https://discord.com/api/oauth2/authorize?client_id="
        <> (client_id
            <> ("&state="
                <> (state
                    <> ("&response_type=code&scope=identify%20email&redirect_uri="
                        <> redirect_uri)))))
  site_url microsoft state self_addr redirect_uri = do
    client_id ← variable "MICROSOFT_CLIENT_ID"
    ok (
        "https://login.live.com/oauth20_authorize.srf?client_id="
        <> (client_id
            <> ("&response_type=code&scope=user.read&state="
                <> (state <> ("&prompt=select_account&redirect_uri=" <> redirect_uri)))))
  site_url gitlab state self_addr redirect_uri = do
    client_id ← variable "GITLAB_CLIENT_ID"
    ok (
        "https://gitlab.com/oauth/authorize?client_id="
        <> (client_id
            <> ("&state="
                <> (state
                    <> ("&scope=read_user+profile+email&response_type=code&redirect_uri="
                        <> redirect_uri)))))
  site_url google state self_addr redirect_uri = do
    client_id ← variable "GOOGLE_CLIENT_ID"
    ok (
        "https://accounts.google.com/o/oauth2/v2/auth?client_id="
        <> (client_id
            <> ("&state="
                <> (state
                    <> ("&scope="
                        <> (encode
                              "https://www.googleapis.com/auth/userinfo.email https://www.googleapis.com/auth/userinfo.profile"
                            <> ("&response_type=code&redirect_uri=" <> redirect_uri)))))))
  site_url steam state self_addr redirect_uri = ok (
      "https://steamcommunity.com/openid/login?openid.ns="
      <> (encode "http://specs.openid.net/auth/2.0"
          <> ("&openid.mode=checkid_setup&openid.return_to="
              <> (redirect_uri
                  <> (encode "?state="
                      <> (state
                          <> ("&openid.realm="
                              <> (self_addr
                                  <> ("&openid.identity=http://specs.openid.net/auth/2.0/identifier_select"
                                      <> "&openid.claimed_id=http://specs.openid.net/auth/2.0/identifier_select")))))))))

  unfoldable pub get_redirect_url : AuthProvider → String → Result AuthenticationError String
  get_redirect_url p state = do
    self_addr ← variable "SELF_ADDR"
    site_url p state self_addr (encode (self_addr <> "/v2/auth/callback"))
