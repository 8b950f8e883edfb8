-- ===== src/Scopes.antt =====
-- The scopes of a token (`Scopes` of src/models/pats.rs).
pub mod Restricted
use labrinth.Base.{ℕ, ◌^◌, Bool, List, [], ◌∷◌}
use mathlib.Core.List.{foldl}
use labrinth.Flags.{Bitflags}

abbrev pub user_read_email : ℕ
user_read_email = 2 ^ 0

abbrev pub user_read : ℕ
user_read = 2 ^ 1

abbrev pub user_write : ℕ
user_write = 2 ^ 2

abbrev pub user_delete : ℕ
user_delete = 2 ^ 3

abbrev pub user_auth_write : ℕ
user_auth_write = 2 ^ 4

abbrev pub notification_read : ℕ
notification_read = 2 ^ 5

abbrev pub notification_write : ℕ
notification_write = 2 ^ 6

abbrev pub payouts_read : ℕ
payouts_read = 2 ^ 7

abbrev pub payouts_write : ℕ
payouts_write = 2 ^ 8

abbrev pub analytics : ℕ
analytics = 2 ^ 9

abbrev pub project_create : ℕ
project_create = 2 ^ 10

abbrev pub project_read : ℕ
project_read = 2 ^ 11

abbrev pub project_write : ℕ
project_write = 2 ^ 12

abbrev pub project_delete : ℕ
project_delete = 2 ^ 13

abbrev pub version_create : ℕ
version_create = 2 ^ 14

abbrev pub version_read : ℕ
version_read = 2 ^ 15

abbrev pub version_write : ℕ
version_write = 2 ^ 16

abbrev pub version_delete : ℕ
version_delete = 2 ^ 17

abbrev pub report_create : ℕ
report_create = 2 ^ 18

abbrev pub report_read : ℕ
report_read = 2 ^ 19

abbrev pub report_write : ℕ
report_write = 2 ^ 20

abbrev pub report_delete : ℕ
report_delete = 2 ^ 21

abbrev pub thread_read : ℕ
thread_read = 2 ^ 22

abbrev pub thread_write : ℕ
thread_write = 2 ^ 23

abbrev pub pat_create : ℕ
pat_create = 2 ^ 24

abbrev pub pat_read : ℕ
pat_read = 2 ^ 25

abbrev pub pat_write : ℕ
pat_write = 2 ^ 26

abbrev pub pat_delete : ℕ
pat_delete = 2 ^ 27

abbrev pub session_read : ℕ
session_read = 2 ^ 28

abbrev pub session_delete : ℕ
session_delete = 2 ^ 29

abbrev pub perform_analytics : ℕ
perform_analytics = 2 ^ 30

abbrev pub collection_create : ℕ
collection_create = 2 ^ 31

abbrev pub collection_read : ℕ
collection_read = 2 ^ 32

abbrev pub collection_write : ℕ
collection_write = 2 ^ 33

abbrev pub collection_delete : ℕ
collection_delete = 2 ^ 34

abbrev pub all : ℕ
all = 0b11111111111111111111111111111111111

abbrev pub not_restricted : ℕ
not_restricted = 0b111100000011111111111111100111

abbrev pub none_scopes : ℕ
none_scopes = 0

-- Behind `PAT_CREATE`, in the order of the source.
abbrev pub more_restricted : List ℕ
more_restricted =
    pat_read ∷ pat_write ∷ pat_delete ∷ session_read ∷ session_delete ∷ user_auth_write
    ∷ user_delete ∷ perform_analytics ∷ []

-- The union that `restricted` tests.
unfoldable pub restricted_scopes : Bitflags → ℕ
restricted_scopes flags = foldl flags.union pat_create more_restricted

-- These scopes cannot be specified in a personal access token, the source says of this test.
unfoldable pub restricted : Bitflags → ℕ → Bool
unfolding restricted_scopes
restricted flags scopes = flags.contains scopes (restricted_scopes flags)
