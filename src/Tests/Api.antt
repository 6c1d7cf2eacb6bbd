-- ===== src/Tests/Api.antt =====
-- The calls of the clients.
use asset_tracker.Prelude.{some, String}
use asset_tracker.Api.Http.{Fetch, response}
use asset_tracker.Api.Laws.{Answered, remove_device, perform-Answers}

abbrev unauthorised : Fetch String
unauthorised r = response 401 (some "unauthorized")

perform-Answers_example : Answered unauthorised (λ s. s) (remove_device "d1") "token"
perform-Answers_example = perform-Answers unauthorised (λ s. s) (remove_device "d1") "token"
