-- ===== src/Http/Reply.antt =====
-- What a handler of the web UI answers: a status, a redirect with 302, or a page.
use alertory.Prelude.{ℕ}
use alertory.Text.{Str}

pub data Reply (Page : Type 0) : Type 0 where
  status : ℕ → Reply Page
  redirect : Str → Reply Page
  rendered : Page → Reply Page
