-- ===== src/Session/Gate/Begin.antt =====
-- The handlers of the gate up to their first `await`, and `saveConnection`.
use the_cinder_project.Base.{
  ℕ, ◌+◌, Bool, true, false, not, ◌&&◌, Option, none, some, List, ◌∷◌, Text, take_out, text_eq,
  if◌then◌else◌, ◌==◌,
}
use the_cinder_project.Model.{User}
use the_cinder_project.Session.Gate.{
  checking, logging_in, changing, Connect, probing, clearing, Gate, update, wait, sign_out,
}

abbrev pub in_flight_now : Gate → Bool
in_flight_now g = elim g.in_flight [
  | none ↦ false
  | some (generation, ticket) ↦ generation == g.generation
]

unfoldable pub start_check : Option User → Option Text → Gate → Gate
start_check none token g = g
start_check (some user) none g = g
start_check (some user) (some token) g = record g {
  in_flight = some (g.generation, g.next_ticket);
  next_ticket = g.next_ticket + 1;
  pending =
      checking (record {
        generation = g.generation;
        api = g.api;
        base_url = g.base_url;
        user = user;
        token = token;
        ticket = g.next_ticket;
      })
      ∷ g.pending;
}

-- `refresh` up to its first `await`.
unfoldable pub begin_refresh : Gate → Gate
unfolding start_check
begin_refresh g = if in_flight_now g then g else start_check g.user g.token g

unfoldable pub start_login : Option User → Text → Gate → Gate
start_login (some _) password g = g
start_login none password g = record g {
  generation = g.generation + 1;
  in_flight = none;
  pending =
      logging_in (record {
        generation = g.generation + 1;
        api = g.api;
        base_url = g.base_url;
        password = password;
        known_accounts = g.known_accounts;
      })
      ∷ g.pending;
}

-- `login` up to its first `await`; the form is shown when nobody is signed in.
unfoldable pub begin_login : Text → Gate → Gate
unfolding start_login
begin_login password g = if g.loading then g else start_login g.user password g

unfoldable pub start_change : Option User → Gate → Gate
start_change none g = g
start_change (some user) g =
    if user.must_change_password && not g.loading
    then wait
        (changing (record { generation = g.generation; base_url = g.base_url; token = g.token })) g
    else g

-- The password form, which is shown while a user has to change the password.
unfoldable pub begin_change : Gate → Gate
unfolding start_change
begin_change g = start_change g.user g

unfoldable pub end_session : Option User → Bool → Gate → Gate
unfolding sign_out
end_session none cleared g = g
end_session (some _) cleared g = sign_out g.api cleared g

-- `switchAccount`, which a signed-in user can call.
unfoldable pub switch_account : Bool → Gate → Gate
unfolding end_session
switch_account cleared g = end_session g.user cleared g

abbrev pub begin_connect : Gate → Gate
begin_connect g =
    if g.loading then g else (record g { connect = probing g.base_url g.api ∷ g.connect })

-- The new address is the one in use.
abbrev pub relabel : Text → List Connect → Gate → Gate
relabel label rest g = record g {
  device_label = label;
  online = true;
  connection_open = false;
  connect = rest;
}

-- The new address is another: the session ends before the change.
unfoldable pub leave : ℕ → Text → Text → List Connect → Bool → Gate → Gate
unfolding sign_out
leave api normalized label rest cleared g =
    sign_out api cleared (record g { loading = true; connect = clearing normalized label ∷ rest })

unfoldable pub answer_connect :
    Option (Connect × List Connect) → Option (Text × Text) → Bool → Gate → Gate
unfolding leave text_eq
answer_connect none answer cleared g = g
answer_connect (some (clearing _ _, rest)) answer cleared g = g
answer_connect (some (probing base_url api, rest)) none cleared g = record g { connect = rest }
answer_connect (some (probing base_url api, rest)) (some (normalized, label)) cleared g =
    if text_eq normalized base_url
    then relabel label rest g
    else leave api normalized label rest cleared g

-- One of the calls of `saveConnection` after its checks: `none` if one of them threw, else the
-- normalised address and the label.
unfoldable pub connect_answered : ℕ → Option (Text × Text) → Bool → Gate → Gate
unfolding answer_connect
connect_answered i answer cleared g = answer_connect (take_out i g.connect) answer cleared g

unfoldable pub finish_connect : Option (Connect × List Connect) → Gate → Gate
finish_connect none g = g
finish_connect (some (probing _ _, rest)) g = g
finish_connect (some (clearing normalized label, rest)) g = record g {
  base_url = normalized;
  device_label = label;
  api = g.next_api;
  apis = update g.apis g.next_api (record { url = normalized; bearer = none });
  next_api = g.next_api + 1;
  online = true;
  connection_open = false;
  loading = false;
  connect = rest;
}

-- The end of `saveConnection`, with a new api object.
unfoldable pub connect_cleared : ℕ → Gate → Gate
unfolding finish_connect
connect_cleared i g = finish_connect (take_out i g.connect) g
