-- ===== src/Network/Acceptor.antt =====
-- src/core/network/async_acceptor.h, async_acceptor.cpp: the set of session handlers. An address is
-- a number; `new (std::nothrow)` gives one that is not in use, or the null pointer.
pub mod Handlers
use librtaio.Base.{
  ℕ, Bool, true, false, List, [], ◌∷◌, Option, none, some, ◌==◌, if◌then◌else◌, Outcome, done,
  fault, ◌>>=◌,
}

-- `accepting` is the handler whose socket waits in async_accept; `started` are the handlers that
-- were told to start, the latest first, and `deleted` those that were deleted.
pub record Acceptor : Type 0 where
  pub handlers : List ℕ
  pub accepting : Option ℕ
  pub started : List ℕ
  pub deleted : List ℕ

-- std::set::insert and std::set::erase; the order of the addresses is not looked at.
abbrev pub is_member : ℕ → List ℕ → Bool
is_member a [] = false
is_member a (b ∷ bs) = if a == b then true else is_member a bs

abbrev pub insert : ℕ → List ℕ → List ℕ
insert a bs = if is_member a bs then bs else a ∷ bs

abbrev pub erase : ℕ → List ℕ → List ℕ
erase a [] = []
erase a (b ∷ bs) = let rest = erase a bs in if a == b then rest else b ∷ rest

unfoldable pub make_session_handler : Option ℕ → Acceptor → Option ℕ × Acceptor
make_session_handler none s = (none, s)
make_session_handler (some a) s = (some a, record s { handlers = insert a s.handlers })

unfoldable pub remove_session_handler : ℕ → Acceptor → Acceptor
remove_session_handler a s = record s { handlers = erase a s.handlers }

-- `handler->socket()` of a null pointer is undefined.
unfoldable pub async_accept : Option ℕ → Acceptor → Outcome Acceptor
async_accept none s = fault
async_accept (some a) s = done (record s { accepting = some a })

unfoldable pub start_acceptor : Option ℕ → Acceptor → Outcome Acceptor
unfolding make_session_handler async_accept
start_acceptor fresh s = let made = make_session_handler fresh s in async_accept made.0 made.1

-- handle_accept(handler, error); `fresh` is what `new` gives.
unfoldable pub handle_accept : Option ℕ → ℕ → Bool → Acceptor → Outcome Acceptor
unfolding make_session_handler remove_session_handler async_accept
handle_accept fresh handler true s =
    let s' = remove_session_handler handler (record s { accepting = none }) in
    done (record s' { deleted = handler ∷ s.deleted })
handle_accept fresh handler false s =
    let s' = record s { accepting = none; started = handler ∷ s.started } in
    let made = make_session_handler fresh s' in async_accept made.0 made.1
