-- ===== src/Examples/SimpleForm/Tests.antt =====
-- A form that the theorem on examples/simple-form.rs is applied to.
use rouille.Common.{
  ◌≡◌, refl, some, ◌>>=◌, text, text_eq, split, split_once, eq_ignore_ascii_case, starts_with,
}
use rouille.Http.Body.{cursor}
use rouille.Http.Request.{header}
use rouille.Examples.Tests.{crates, of_client, with_body}
use rouille.Examples.SimpleForm.{handler}
use rouille.Examples.SimpleForm.Submitted.{handler-status}

handler-status_example :
    (handler crates (of_client (text "POST") (text "/submit")) (with_body (text "txt=a&other=b"))
      >>= λ response. some response.status_code)
    ≡ some 200
unfolding text text_eq split split_once eq_ignore_ascii_case starts_with header
handler-status_example =
    handler-status crates (of_client (text "POST") (text "/submit"))
      (with_body (text "txt=a&other=b")) (cursor (text "txt=a&other=b")) (text "txt=a&other=b") refl
      refl refl refl
