-- ===== src/Examples/HelloWorld.antt =====
-- examples/hello-world.rs, one of whose routes panics.
pub mod Table
mod Tests
use rouille.Common.{Option, none, some, List, [], ◌∷◌, ◌++◌, Bytes, Text, text}
use rouille.Http.Request.{Request, Bodies}
use rouille.Http.Response.{Response, redirect_302, text as text_response, empty_400, empty_404}
use rouille.Routing.{Route, router}
use rouille.Routing.OldStyle.{slash, slash_ident, slash_typed_param}
use rouille.Examples.Branches.{branch_with}
use rouille.Server.Process.{Handled, returned, panicked}

-- The block of a pattern with one parameter.
abbrev pub with_param : {P : Type 0} → (P → Option Response) → List P → Option Response
with_param block [] = none
with_param block (p ∷ ps) = block p

abbrev pub returned_or_panicked : Option Response → Handled
returned_or_panicked none = panicked
returned_or_panicked (some r) = returned r

-- `format!("hello, {}", id)`
unfoldable pub hello : Text → Response
unfolding text_response
hello id = text_response (text "hello, " ++ id)

-- `str::parse` of a number, and `percent_decode(…).decode_utf8_lossy()`
module _ {U32 : Type 0} (parse_u32 : Text → Option U32) (percent_decode_lossy : Bytes → Text) where
  unfoldable pub routes : List (Route Response)
  unfolding redirect_302 text_response empty_400 hello
  routes =
      let get = text "GET" in
      branch_with {P = Text} some percent_decode_lossy get (slash ∷ [])
        (λ ps. some (redirect_302 (text "/hello/world")))
      ∷ branch_with {P = Text} some percent_decode_lossy get
          (slash_ident (text "hello") ∷ slash_ident (text "world") ∷ [])
          (λ ps. some (text_response (text "hello world")))
      ∷ branch_with {P = Text} some percent_decode_lossy get (slash_ident (text "panic") ∷ [])
          (λ ps. none)
      ∷ branch_with parse_u32 percent_decode_lossy get (slash_typed_param ∷ [])
          (with_param (λ id. some empty_400))
      ∷ branch_with {P = Text} some percent_decode_lossy get (slash_typed_param ∷ [])
          (with_param (λ id. some (hello id)))
      ∷ []

  -- The handler that the server is started with.
  unfoldable pub handler : Request → Bodies → Handled
  unfolding router routes empty_404
  handler request bodies = returned_or_panicked (router request routes empty_404)
