-- ===== src/System/Staged/Writes.antt =====
-- What the handlers write while their stream is open changes no other file
-- (src/confd/src/confd/ietf-system.c, change_ntp and change_dns).
use infix_lib.Prelude.{
  ℤ, ◌≡◌, String, ◌==◌, Bool, true, false, Option, none, some, List, [], ◌∷◌, ◌⊎◌, inl, inr,
}
use infix_lib.Machine.Values.{SrVal}
use infix_lib.Machine.Files.{Store, Leaves, Leaves-bind, leave_rules}
use infix_lib.System.Staged.Reads.{read_rules}
use infix_lib.System.Ntp.{put_servers, put_server, put_if, put_port, put_settings}
use infix_lib.System.Dns.{
  write_resolv, put_options, put_number, put_search, put_each, put_nameserver, put_nameservers,
  write_search, write_servers,
}

module _ (s : Store) (q fp : String) (other : fp == q ≡ false) where
  Leaves-put_if : (b : Bool) (text : String) → Leaves s q (put_if b text fp)
  unfolding put_if
  Leaves-put_if true text = search leave_rules
  Leaves-put_if false text = search leave_rules

  Leaves-put_port : (port : Option String) → Leaves s q (put_port port fp)
  unfolding put_port
  Leaves-put_port none = search leave_rules
  Leaves-put_port (some port) = search leave_rules

  Leaves-put_server : (xpath : String) (o : Option String) → Leaves s q (put_server fp xpath o)
  unfolding put_server
  Leaves-put_server xpath none = search leave_rules
  Leaves-put_server xpath (some address) =
      search (read_rules, Leaves-put_if, Leaves-put_port) depth 14

  pub Leaves-put_servers : (vals : List SrVal) → Leaves s q (put_servers fp vals)
  unfolding put_servers
  Leaves-put_servers [] = search leave_rules
  Leaves-put_servers (val ∷ vals) = Leaves-bind s q _ _ (search read_rules) λ address.
      Leaves-bind s q _ _ (Leaves-put_server val.xpath address)
        λ server. Leaves-bind s q _ _ (Leaves-put_servers vals) λ rest. search leave_rules

  pub Leaves-put_settings : Leaves s q (put_settings fp)
  unfolding put_settings
  Leaves-put_settings = search leave_rules

  Leaves-put_number :
      (before : String) (n : ℤ) (behind : String) → Leaves s q (put_number before n behind fp)
  unfolding put_number
  Leaves-put_number before n behind = search leave_rules

  Leaves-put_options : (timeout attempts : ℤ) → Leaves s q (put_options timeout attempts fp)
  unfolding put_options
  Leaves-put_options timeout attempts = search (leave_rules, Leaves-put_number)

  Leaves-put_each : (vals : List SrVal) → Leaves s q (put_each fp vals)
  unfolding put_each
  Leaves-put_each [] = search leave_rules
  Leaves-put_each (val ∷ vals) = Leaves-bind s q _ _ (search leave_rules) λ _. Leaves-put_each vals

  Leaves-put_search : (vals : List SrVal) → Leaves s q (put_search fp vals)
  unfolding put_search
  Leaves-put_search [] = search leave_rules
  Leaves-put_search (val ∷ vals) = search (leave_rules, Leaves-put_each)

  Leaves-put_nameserver : (o : Option String) → Leaves s q (put_nameserver fp o)
  unfolding put_nameserver
  Leaves-put_nameserver none = search leave_rules
  Leaves-put_nameserver (some a) = search leave_rules

  Leaves-put_nameservers : (vals : List SrVal) → Leaves s q (put_nameservers fp vals)
  unfolding put_nameservers
  Leaves-put_nameservers [] = search leave_rules
  Leaves-put_nameservers (val ∷ vals) = Leaves-bind s q _ _ (search read_rules) λ address.
      Leaves-bind s q _ _ (Leaves-put_nameserver address) λ _. Leaves-put_nameservers vals

  Leaves-write_servers : (o : ℤ ⊎ List SrVal) → Leaves s q (write_servers fp o)
  unfolding write_servers
  Leaves-write_servers (inl rc) = search leave_rules
  Leaves-write_servers (inr vals) = search (leave_rules, Leaves-put_nameservers)

  Leaves-write_search : (o : ℤ ⊎ List SrVal) → Leaves s q (write_search fp o)
  unfolding write_search
  Leaves-write_search (inl rc) = search leave_rules
  Leaves-write_search (inr vals) = search (leave_rules, Leaves-put_search, Leaves-write_servers)

  pub Leaves-write_resolv : Leaves s q (write_resolv fp)
  unfolding write_resolv
  Leaves-write_resolv = search (read_rules, Leaves-put_options, Leaves-write_search)
