-- ===== src/Session/Gate/Invariant/Begins.antt =====
-- The operations up to the first `await`, and `saveConnection`, keep the invariant.
use the_cinder_project.Base.{
  ℕ, Bool, true, false, Option, none, some, is_some, zero, suc, List, [], ◌∷◌, take_out, Text, ◌≡◌,
  arith, refl, sym, ap, Bool-cases, inl, inr, text_eq, ◌&&◌, not, subst,
}
use the_cinder_project.Model.{User}
use the_cinder_project.Session.Gate.{Connect, probing, clearing, Gate, sign_out}
use the_cinder_project.Session.Gate.Begin.{
  start_check, start_login, start_change, end_session, relabel, leave, answer_connect,
  finish_connect, connect_answered, connect_cleared,
}
use the_cinder_project.Session.Gate.Invariant.{view, ConnectFits, ConnectsFit, IsValid}
use the_cinder_project.Session.Gate.Invariant.Facts.{
  Fits-later, Apart-new, Apart-plain, Fits-loading,
}

ConnectFits-calm :
    (l : Bool) (url : Text) (api : ℕ) (user : Option User) (o : Option Connect)
    → is_some user ≡ true
    → ConnectFits l url api user o
    → l ≡ false
ConnectFits-calm l url api user none e h = h
ConnectFits-calm l url api user (some (probing u a)) e h = h.0
ConnectFits-calm l url api user (some (clearing u label)) e h = absurd (cc (ap is_some h.1))

ConnectsFit-calm :
    (l : Bool) (url : Text) (api : ℕ) (user : Option User) (cs : List Connect)
    → is_some user ≡ true
    → ConnectsFit l url api user cs
    → l ≡ false
ConnectsFit-calm l url api user [] e h = h
ConnectsFit-calm l url api user (c ∷ []) e h = ConnectFits-calm l url api user (some c) e h
ConnectsFit-calm l url api user (_ ∷ _ ∷ _) e h = absurd h

-- Nobody is signed in while the gate is loading.
pub calm : (g : Gate) → IsValid g → is_some g.user ≡ true → g.loading ≡ false
calm g v e = ConnectsFit-calm g.loading g.base_url g.api g.user g.connect e v.connecting

-- Signing out, or a user that takes the place of another, when nothing is being connected.
pub ConnectFits-user :
    (l : Bool) (url : Text) (api : ℕ) (user new : Option User) (o : Option Connect)
    → l ≡ false
    → ConnectFits l url api user o
    → ConnectFits l url api new o
ConnectFits-user l url api user new none e h = h
ConnectFits-user l url api user new (some (probing u a)) e h = h
ConnectFits-user l url api user new (some (clearing u label)) e h = absurd (cc (h.0))

pub ConnectsFit-user :
    (l : Bool) (url : Text) (api : ℕ) (user new : Option User) (cs : List Connect)
    → l ≡ false
    → ConnectsFit l url api user cs
    → ConnectsFit l url api new cs
ConnectsFit-user l url api user new [] e h = h
ConnectsFit-user l url api user new (c ∷ []) e h = ConnectFits-user l url api user new (some c) e h
ConnectsFit-user l url api user new (_ ∷ _ ∷ _) e h = absurd h

abbrev taken_or : Connect → Option (Connect × List Connect) → Connect
taken_or d none = d
taken_or d (some (c, _)) = c

abbrev rest_of : Option (Connect × List Connect) → List Connect
rest_of none = []
rest_of (some (_, rest)) = rest

-- A save that is taken out was the only one.
taken_out :
    (l : Bool) (url : Text) (api : ℕ) (user : Option User) (i : ℕ) (cs : List Connect) (c : Connect)
    (rest : List Connect)
    → take_out i cs ≡ some (c, rest)
    → ConnectsFit l url api user cs
    → (rest ≡ []) × ConnectFits l url api user (some c)
taken_out l url api user i [] c rest e h = absurd cc
taken_out l url api user zero (d ∷ []) c rest e h =
    let same : d ≡ c = ap (λ t. taken_or d t) e in
    (ap (λ t. rest_of t) (sym e), subst (λ x. ConnectFits l url api user (some x)) same h)
taken_out l url api user (suc i) (d ∷ []) c rest e h = absurd cc
taken_out l url api user i (_ ∷ _ ∷ _) c rest e h = absurd h

pub start_check-IsValid :
    (o : Option User) (t : Option Text) (g : Gate)
    → g.user ≡ o
    → g.token ≡ t
    → IsValid g
    → IsValid (start_check o t g)
unfolding start_check
start_check-IsValid none t g e f v = v
start_check-IsValid (some user) none g e f v = v
start_check-IsValid (some user) (some token) g e f v = record {
  both = v.both;
  bearer = v.bearer;
  address = v.address;
  made = v.made;
  connecting = v.connecting;
  waiting = (
    record {
      not_later = omega arith;
      captured = λ _. record {
        calm = calm g v (ap is_some e);
        same_api = refl;
        same_url = refl;
        someone = ap is_some e;
        same_token = f;
      };
    },
    v.waiting,
  );
  distinct = (Apart-plain _ g.pending refl, v.distinct);
}

pub start_login-IsValid :
    (o : Option User) (password : Text) (g : Gate)
    → g.user ≡ o
    → g.loading ≡ false
    → IsValid g
    → IsValid (start_login o password g)
unfolding start_login
start_login-IsValid (some u) password g e l v = v
start_login-IsValid none password g e l v = record {
  both = v.both;
  bearer = v.bearer;
  address = v.address;
  made = v.made;
  connecting = v.connecting;
  waiting = (
    record {
      not_later = omega arith;
      captured = λ _. record { calm = l; same_api = refl; same_url = refl; nobody = ap is_some e };
    },
    Fits-later (view g) _ g.pending refl v.waiting,
  );
  distinct = (Apart-new (view g) _ g.pending refl v.waiting, v.distinct);
}

pub start_change-IsValid :
    (o : Option User) (g : Gate) → g.user ≡ o → IsValid g → IsValid (start_change o g)
unfolding start_change
start_change-IsValid none g e v = v
start_change-IsValid (some u) g e v = elim (Bool-cases (u.must_change_password && not g.loading)) [
  | inl f ↦ simp f (record {
    both = v.both;
    bearer = v.bearer;
    address = v.address;
    made = v.made;
    connecting = v.connecting;
    waiting = (
      record {
        not_later = omega arith;
        captured = λ _. record {
          calm = calm g v (ap is_some e);
          same_url = refl;
          someone = ap is_some e;
          same_token = refl;
        };
      },
      v.waiting,
    );
    distinct = (Apart-plain _ g.pending refl, v.distinct);
  })
  | inr f ↦ simp f v
]

-- The lines that end a session, with the api object in use, before and while the gate loads.
pub sign_out-IsValid :
    (g : Gate) (cleared : Bool) → g.loading ≡ false → IsValid g → IsValid (sign_out g.api cleared g)
unfolding sign_out
sign_out-IsValid g cleared l v = record {
  both = refl;
  bearer = ground arith;
  address = let a = v.address in ground arith;
  made = v.made;
  connecting = ConnectsFit-user g.loading g.base_url g.api g.user none g.connect l v.connecting;
  waiting = Fits-later (view g) _ g.pending refl v.waiting;
  distinct = v.distinct;
}

pub end_session-IsValid :
    (o : Option User) (cleared : Bool) (g : Gate)
    → g.user ≡ o
    → IsValid g
    → IsValid (end_session o cleared g)
unfolding end_session
end_session-IsValid none cleared g e v = v
end_session-IsValid (some u) cleared g e v = sign_out-IsValid g cleared (calm g v (ap is_some e)) v

leave-IsValid :
    (url label : Text) (cleared : Bool) (g : Gate)
    → IsValid g
    → IsValid (leave g.api url label [] cleared g)
unfolding leave
leave-IsValid url label cleared g v = record {
  both = refl;
  bearer = ground arith;
  address = let a = v.address in ground arith;
  made = v.made;
  connecting = (refl, refl);
  waiting = Fits-later (view g) _ g.pending refl v.waiting;
  distinct = v.distinct;
}

relabel-IsValid :
    (label : Text) (g : Gate) → g.loading ≡ false → IsValid g → IsValid (relabel label [] g)
relabel-IsValid label g l v = record {
  both = v.both;
  bearer = v.bearer;
  address = v.address;
  made = v.made;
  connecting = l;
  waiting = v.waiting;
  distinct = v.distinct;
}

-- What is known of a save that goes on.
abbrev Only : Gate → Option (Connect × List Connect) → Type 0
Only g o =
    (c : Connect) (rest : List Connect)
    → o ≡ some (c, rest)
    → (rest ≡ []) × ConnectFits g.loading g.base_url g.api g.user (some c)

only : (g : Gate) (i : ℕ) → IsValid g → Only g (take_out i g.connect)
only g i v c rest e = taken_out g.loading g.base_url g.api g.user i g.connect c rest e v.connecting

answer_connect-IsValid :
    (o : Option (Connect × List Connect)) (answer : Option (Text × Text)) (cleared : Bool)
    (g : Gate)
    → Only g o
    → IsValid g
    → IsValid (answer_connect o answer cleared g)
unfolding answer_connect
answer_connect-IsValid none answer cleared g e v = v
answer_connect-IsValid (some (clearing url label, rest)) answer cleared g e v = v
answer_connect-IsValid (some (probing url api, rest)) none cleared g e v =
    let (none_left, fits) = e (probing url api) rest refl in
    let ends : IsValid (record g { connect = [] }) = record {
      both = v.both;
      bearer = v.bearer;
      address = v.address;
      made = v.made;
      connecting = fits.0;
      waiting = v.waiting;
      distinct = v.distinct;
    } in
    subst (λ r. IsValid (record g { connect = r })) (sym none_left) ends
answer_connect-IsValid (some (probing url api, rest)) (some (u, label)) cleared g e v =
    let (none_left, fits) = e (probing url api) rest refl in
    elim (Bool-cases (text_eq u url)) [
      | inl f ↦ simp f (
          subst (λ r. IsValid (relabel label r g)) (sym none_left)
            (relabel-IsValid label g fits.0 v))
      | inr f ↦ simp f (
          subst (λ r. IsValid (leave api u label r cleared g)) (sym none_left)
            (subst (λ a. IsValid (leave a u label [] cleared g)) (sym fits.2)
              (leave-IsValid u label cleared g v)))
    ]

pub connect_answered-IsValid :
    (i : ℕ) (answer : Option (Text × Text)) (cleared : Bool) (g : Gate)
    → IsValid g
    → IsValid (connect_answered i answer cleared g)
unfolding connect_answered
connect_answered-IsValid i answer cleared g v =
    answer_connect-IsValid (take_out i g.connect) answer cleared g (only g i v) v

finish_connect-IsValid :
    (o : Option (Connect × List Connect)) (g : Gate)
    → Only g o
    → IsValid g
    → IsValid (finish_connect o g)
unfolding finish_connect
finish_connect-IsValid none g e v = v
finish_connect-IsValid (some (probing url api, rest)) g e v = v
finish_connect-IsValid (some (clearing url label, rest)) g e v =
    let (none_left, fits) = e (clearing url label) rest refl in
    let ends : IsValid (finish_connect (some (clearing url label, [])) g) = record {
      both = v.both;
      bearer = (let b = v.both in let nobody = fits.1 in ground arith);
      address = ground arith;
      made = omega arith;
      connecting = refl;
      waiting = Fits-loading (view g) _ g.pending fits.0 refl v.waiting;
      distinct = v.distinct;
    } in
    subst (λ r. IsValid (finish_connect (some (clearing url label, r)) g)) (sym none_left) ends

pub connect_cleared-IsValid : (i : ℕ) (g : Gate) → IsValid g → IsValid (connect_cleared i g)
unfolding connect_cleared
connect_cleared-IsValid i g v = finish_connect-IsValid (take_out i g.connect) g (only g i v) v
