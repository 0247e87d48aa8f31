-- ===== src/Net/Command/Links.antt =====
-- The interfaces that net sets up or down (src/net/src/main.c, allowed and ifupdown).
use infix_lib.Prelude.{
  ℤ, pos, ◌+ℤ◌, ◌≡◌, refl, ap, ◌∙◌, arith, String, ◌<>◌, ◌==◌, Bool, not, Option, none, some, List,
  [], ◌∷◌, is_zero, if◌then◌else◌, Bool-cases, inl, inr,
}
use infix_lib.Text.{concat}
use infix_lib.Machine.{
  Env, World, History, Call, M, ran, wrote, opened, ◌>>=◌, pure, system, fopen, fputs, fgets,
  fclose, chomp,
}
use infix_lib.Machine.Views.{Keeps, keep_rules}
use infix_lib.Machine.Commands.{deeds, deed_view}
use infix_lib.Net.Command.Asks.{Keeps-getnet}
use infix_lib.Net.{Net}
use infix_lib.Net.Deps.{go_on}
use infix_lib.Net.Command.{
  getnet, path_from, path_of, getpath, ifadmin, is_enabled, read_admin, allowed, put_admin,
  save_admin, link_command, set_link, set_links, with_ifaces, ifupdown,
}

Keeps-go_on :
    {A B : Type 0} (o : Option A) (f : A → M (Option B))
    → ((a : A) → Keeps deed_view (f a))
    → Keeps deed_view (go_on o f)
unfolding go_on
Keeps-go_on none f h = search keep_rules
Keeps-go_on (some a) f h = h a

Keeps-net : Keeps deed_view getnet
Keeps-net = Keeps-getnet deed_view λ r. refl

Keeps-path_from : (net fp : String) (buf : Option String) → Keeps deed_view (path_from net fp buf)
unfolding path_from
Keeps-path_from net fp none = search keep_rules
Keeps-path_from net fp (some buf) = search keep_rules

Keeps-path_of : (net : String) (fp : Option String) → Keeps deed_view (path_of net fp)
unfolding path_of
Keeps-path_of net none = search keep_rules
Keeps-path_of net (some fp) = search (keep_rules, Keeps-path_from)

Keeps-getpath : Keeps deed_view getpath
unfolding getpath
Keeps-getpath = search (keep_rules, Keeps-net, Keeps-go_on, Keeps-path_of)

Keeps-ifadmin : (ifname : String) → Keeps deed_view (ifadmin ifname)
unfolding ifadmin
Keeps-ifadmin ifname = search (keep_rules, Keeps-getpath, Keeps-go_on)

Keeps-is_enabled : (line : Option String) → Keeps deed_view (is_enabled line)
unfolding is_enabled
Keeps-is_enabled none = search keep_rules
Keeps-is_enabled (some line) = search keep_rules

Keeps-read_admin : (fp : Option String) → Keeps deed_view (read_admin fp)
unfolding read_admin
Keeps-read_admin none = search keep_rules
Keeps-read_admin (some fp) = search (keep_rules, Keeps-is_enabled)

Keeps-allowed : (ifname : String) → Keeps deed_view (allowed ifname)
unfolding allowed
Keeps-allowed ifname = search (keep_rules, Keeps-ifadmin, Keeps-go_on, Keeps-read_admin)

-- The file that holds the admin state of an interface, where `dir` is the current generation.
abbrev pub admin_file : String → String → String
admin_file dir ifname = concat (dir ∷ "/" ∷ ifname ∷ "/admin-state" ∷ [])

-- The current generation is known. The files of the admin states can be opened, and those of the
-- disabled interfaces, and no others, read as "disabled". The outcomes of the commands are the same
-- at all times.
pub record Steady (e : Env) (dir : String) (disabled : String → Bool) (status : String → ℤ)
    : Type 0 where
  pub finds : (w : World) → (getpath e w).0 ≡ some dir
  pub opens :
      (h : History) (ifname mode : String) → e.open_errno h (admin_file dir ifname) mode ≡ none
  pub state : History → String → String
  pub reads :
      (h : History) (ifname : String)
      → e.line (opened (admin_file dir ifname) "r" ∷ h) (admin_file dir ifname)
        ≡ some (state h ifname)
  pub says :
      (h : History) (ifname : String) → e.chomp (state h ifname) == "disabled" ≡ disabled ifname
  pub runs : (h : History) (cmd : String) → e.status h cmd ≡ status cmd

-- One command for an interface, and where it succeeds, the new admin state in its file.
abbrev pub link_deeds : String → String → (String → ℤ) → String → List Call → List Call
link_deeds dir action status ifname deeds =
    let cmd = link_command ifname action in
    if is_zero (status cmd)
    then wrote (admin_file dir ifname) (action <> "\n") ∷ ran cmd ∷ deeds
    else ran cmd ∷ deeds

-- The interfaces that are not disabled, in order.
abbrev pub links_deeds :
    String → String → (String → Bool) → (String → ℤ) → List String → List Call → List Call
links_deeds dir action disabled status [] deeds = deeds
links_deeds dir action disabled status (ifname ∷ ifaces) deeds =
    links_deeds dir action disabled status ifaces
      (if disabled ifname then deeds else link_deeds dir action status ifname deeds)

-- The sum of the statuses of their commands.
abbrev pub links_total : String → (String → Bool) → (String → ℤ) → List String → ℤ → ℤ
links_total action disabled status [] rc = rc
links_total action disabled status (ifname ∷ ifaces) rc =
    links_total action disabled status ifaces
      (if disabled ifname then rc else rc +ℤ status (link_command ifname action))

module _ (e : Env) (dir : String) (disabled : String → Bool) (status : String → ℤ)
    (steady : Steady e dir disabled status) (action : String) where
  -- An interface may be set unless it is disabled.
  allowed_lem :
      (ifname : String) (w : World) → (allowed ifname e w).0 ≡ some (not (disabled ifname))
  unfolding allowed ifadmin read_admin is_enabled go_on fopen fgets fclose chomp ◌>>=◌ pure
  allowed_lem ifname w =
      let v = (getpath e w).1 in
      rw (steady.finds w) (
        rw (steady.opens v.calls ifname "r")
          (rw (steady.reads v.calls ifname) (rw (steady.says v.calls ifname) (ground arith))))

  saved_lem :
      (ifname : String) (w : World)
      → let r = save_admin ifname action e w in
        (r.0 ≡ some tt)
        × (deeds r.1.calls ≡ wrote (admin_file dir ifname) (action <> "\n") ∷ deeds w.calls)
  unfolding save_admin ifadmin put_admin go_on fopen fputs fclose ◌>>=◌ pure
  saved_lem ifname w =
      let v = (getpath e w).1 in
      rw (steady.finds w) (
        rw (steady.opens v.calls ifname "w") (
          refl,
          ap (λ ds. wrote (admin_file dir ifname) (action <> "\n") ∷ ds) (Keeps-getpath.at e w),
        ))

  link_lem :
      (ifname : String) (w : World)
      → let r = set_link ifname action e w in
        (r.0 ≡ some (status (link_command ifname action)))
        × (deeds r.1.calls ≡ link_deeds dir action status ifname (deeds w.calls))
  unfolding set_link system ◌>>=◌ pure go_on
  link_lem ifname w =
      let cmd = link_command ifname action in
      let v : World = record w { calls = ran cmd ∷ w.calls } in
      let (ok, kept) = saved_lem ifname v in
      elim (Bool-cases (is_zero (status cmd))) [
        | inl y ↦ rw (steady.runs w.calls cmd) (rw y (rw ok (refl, kept)))
        | inr n ↦ rw (steady.runs w.calls cmd) (rw n (refl, refl))
      ]

  links_lem :
      (ifaces : List String) (rc : ℤ) (w : World)
      → let r = set_links action ifaces rc e w in
        (r.0 ≡ some (links_total action disabled status ifaces rc))
        × (deeds r.1.calls ≡ links_deeds dir action disabled status ifaces (deeds w.calls))
  unfolding set_links ◌>>=◌ pure go_on
  links_lem [] rc w = (refl, refl)
  links_lem (ifname ∷ ifaces) rc w =
      let v = (allowed ifname e w).1 in
      let quiet = (Keeps-allowed ifname).at e w in
      let go = links_deeds dir action disabled status ifaces in
      elim (Bool-cases (disabled ifname)) [
        | inl y ↦
            let (total, run) = links_lem ifaces rc v in
            rw (allowed_lem ifname w) (rw y (total, run ∙ ap go quiet))
        | inr n ↦
            let set = set_link ifname action e v in
            let (ok, deed) = link_lem ifname v in
            let sum = rc +ℤ status (link_command ifname action) in
            let (total, run) = links_lem ifaces sum set.1 in
            rw (allowed_lem ifname w) (
              rw n (
                rw ok (total, run ∙ ap go (deed ∙ ap (link_deeds dir action status ifname) quiet))))
      ]

  -- Where the current generation is known, the files of the admin states can be opened and say
  -- which interfaces are disabled, and the outcomes of the commands are the same at all times:
  -- `ifup` and `ifdown` with names run one command for each interface that is not disabled, in the
  -- order of the list, write the new state into its file if the command succeeds, go on after one
  -- that fails, and have the sum of the statuses as their result.
  pub ifupdown-runs :
      (net : Net) (ifname : String) (ifaces : List String) (w : World)
      → net.iface_list ≡ ifname ∷ ifaces
      → let r = ifupdown action net e w in
        (r.0 ≡ some (links_total action disabled status (ifname ∷ ifaces) (pos 0)))
        × (deeds r.1.calls
            ≡ links_deeds dir action disabled status (ifname ∷ ifaces) (deeds w.calls))
  unfolding ifupdown with_ifaces ◌>>=◌ pure go_on
  ifupdown-runs net ifname ifaces w h = rw h (links_lem (ifname ∷ ifaces) (pos 0) w)
