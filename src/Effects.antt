-- ===== src/Effects.antt =====
-- The Go errors that the model tells apart, and a value or an error.

-- `db_failure` is any error of the database but `sql.ErrNoRows`; `panic` is a Go panic.
pub data Error : Type 0 where
  db_failure no_rows nested_write panic : Error
  not_linked invalid_button invalid_token unavailable : Error
  no_token cannot_decrypt bad_request : Error
  hub_closed too_many_subscribers : Error

pub data Result {ℓ} (A : Type ℓ) : Type ℓ where
  ok : A → Result A
  err : Error → Result A
