-- ===== src/Tests/Running.antt =====
-- Definitions whose `unfolding` lines let a test compute through a whole part of the program.
use infix_lib.Prelude.{ℕ, ◌+ℤ◌}
use infix_lib.Machine.{◌>>=◌}
use infix_lib.Text.{
  show_onto, show_nat, show_int, show_two, rindex, strlcpy, read_digits, skip_space, read_prefixed,
  read_signed, strtoll, strtol_10, to_bracket, split_last,
}
use infix_lib.Helpers.{fexistf, popenf, open_file, vreadllf, readllf, readdf, writedf, writesf}
use infix_lib.Lyx.{
  lydx_get_mattr, find_op, lydx_get_op, lydx_get_diff, find_name, lydx_get_sibling, lydx_get_child,
  descend, lydx_get_descendant, lydx_get_attr, lydx_get_cattr, lydx_is_enabled, lydx_get_vattrf,
  lydx_get_attrf,
}
use infix_lib.Srx.{
  srx_get_diff, srx_set_item, srx_set_str, pick, srx_vaget, get_vabool, srx_get_bool, srx_enabled,
  to_int, int_of, srx_get_int, srx_get_str, srx_vnitems, srx_nitems,
}
use infix_lib.Dagger.{
  interpreter, put_header, kept, prepare, dagger_fopen, dagger_fopen_next, dagger_fopen_current,
  dagger_add_dep, dagger_add_node, finish_claim, dagger_abandon, dagger_evolve,
  dagger_evolve_or_abandon, dagger_skip_iface, dagger_should_skip, claim_next, claim_current,
  claim_opened, dagger_claim,
}
use infix_lib.Interfaces.Infer.{
  link_is_phys, read_link, iface_is_phys, iface_xpath, set_veth_peer, infer_veth_named,
  infer_veth_typed, ifchange_cand_infer_veth, set_if_missing, set_vlan, infer_vlan_split,
  infer_vlan_named, infer_vlan_typed, ifchange_cand_infer_vlan, type_by_name, infer_type_named,
  infer_type_typed, ifchange_cand_infer_type, infer_change, infer_changes, infer_all, ifchange_cand,
}
use infix_lib.Interfaces.Addresses.{
  is_std_lo_addr, is_create, is_delete, is_replace, add_address, change_address, address_parts,
  netdag_gen_diff_addr, each, netdag_gen_diff_addrs, set_conf_addr, netdag_set_conf_addrs, is_off,
  flush, netdag_gen_ip_addrs,
}
use infix_lib.Interfaces.Autoconf.{
  reload_script, netdag_exit_reload, choose_autoconf, put_autoconf, netdag_gen_ipv6_autoconf,
  zeroconf_up, zeroconf_down, set_zeroconf, netdag_gen_ipv4_autoconf, put_sysctl, open_sysctl,
  netdag_gen_sysctl_bool, close_sysctl, sysctl_ipv6, netdag_gen_sysctl,
}
use infix_lib.Interfaces.Links.{
  veth_with, veth_at, netdag_gen_veth, put_vlan_id, put_vlan, vlan_tagged, netdag_gen_vlan,
  fwd_mask, mask_of, netdag_get_bridge_fwd_mask, put_bridge, netdag_set_bridge,
  netdag_gen_afspec_add, netdag_gen_afspec_set, links_at, netdag_bridge_links, netdag_must_del,
}
use infix_lib.Interfaces.Iface.{
  ◌then_do◌, put_exit, netdag_gen_iface_del, as_created, put_up, put, gen_init, with_init, gen_next,
  gen_by_op, netdag_gen_iface,
}
use infix_lib.Interfaces.Change.{
  add_node, netdag_init, find_iface, gen_iface, gen_all, build_diff, build, build_claimed, ifchange,
}
use infix_lib.Dhcp.{
  put_client, add, del, find_client, set_client, change_client, change_clients, change_from,
  change_all, client_change,
}
use infix_lib.Core.{
  core_hook_prio, core_startup_save, core_pre_hook, reload, hook_done, core_post_hook,
}
use infix_lib.Core.Start.{
  add_hooks, register_change, register, register_all, ietf_interfaces_init, ietf_system_init,
  infix_dhcp_init, undo, init_dhcp, init_system, init_interfaces, init_augeas, start_candidate,
  start_sessions, sr_plugin_init_cb, sr_plugin_cleanup_cb,
}
use infix_lib.System.Users.{
  is_valid_username, sys_del_user, sys_add_new_user, set_password, update_password, password_op,
  passwd_update_at, handle_sr_passwd_update, user_check_at, check_sr_user_update, with_user,
  user_op, handle_sr_user_update,
}
use infix_lib.System.Clock.{write_timezone, stage_timezone, stage_clock, change_clock}
use infix_lib.Net.{
  addif, findif, freeifs, has_line, save_line, save_in, savedep, pipe_of, pipep, copy_lines,
  copy_from, pipeit, run_with, run, dir_filter,
}
use infix_lib.Net.Deps.{
  go_on, visit_at, visit_all, no_action, run_action, act_on, finish, deps, iter_all, close_pipe,
  iter,
}
use infix_lib.Net.Generation.{
  load_line, load_from, load_gen, save_to, save_gen, save_rdeps, run_all, rdeps_from, rdeps,
  deactivate, activate, remove_next, commit, finish_next, activate_from, leave_current, take_next,
  activate_piped, open_bridge, activate_next,
}
use infix_lib.Klinfix.{
  klix_ds_from_str, leave, copy_in_session, copy_connected, copy_between, copy_named, klix_copy,
  commit_in_session, commit_connected, klix_commit, kplugin_klinfix_fini, kplugin_klinfix_init,
}
use infix_lib.Factory.{
  read_raw, set_raw, rawgetch, yorn, run as run_of_factory, read_options, confirm, reboot_if,
  schedule, reset, start_reset, main_from, main,
}
use infix_lib.Systemv.{exit_code, fsystemv, systemv, close_if, systemv_silent}
use infix_lib.System.Hostname.{
  put_motd, change_motd, sys_reload_services, rename_host, rename_hosts, activate_host, set_host,
  change_hostname,
}
use infix_lib.System.Ntp.{
  put_if, put_port, put_server, put_servers, put_settings, is_valid, write_chrony, stage_servers,
  stage_ntp, restart_chrony, change_ntp,
}
use infix_lib.System.Dns.{
  put_number, put_options, put_each, put_search, put_nameserver, put_nameservers, write_servers,
  write_search, write_resolv, close_resolv, stage_resolv, stage_dns, update_resolv, change_dns,
}
use infix_lib.System.OsRelease.{
  skip_quotes, cut_quote, strip_quotes, after_equals, setvar, drop_last, read_info, read_lines,
  read_release, open_release, os_init, platform_nodes, platform_cb,
}
use infix_lib.Modules.{enable_features, srx_require_module, srx_require_modules}
use infix_lib.Statd.{
  lower_in, to_lowercase, read_links, get_ip_link_json, add_status, add_index, add_ip_link_data,
  add_single, add_ip_link, subscribe, subscribe_all, subscribe_items, reg_iface_handlers, iface_cb,
  start_oper, sr_plugin_init_cb as sr_plugin_init_cb_of_statd,
}
use infix_lib.System.Staged.{install}
use infix_lib.System.Changes.{sr_change_iter}
use infix_lib.System.Auth.{
  lyx_list_is_empty, put_keys, write_keys, user_keys, all_keys, keys_in, generate_auth_keys,
  change_auth_check, save_auth, update_passwords, load_users, change_auth_done, change_auth,
}
use infix_lib.System.Datetime.{
  insert_colon, format_zone, fmtime, boot_time, clock_cb, rpc_exec, remove_colon, read_format,
  set_time, rpc_set_datetime,
}
use infix_lib.Lyx.Build.{lydx_new_path}
use infix_lib.Net.Command.{
  make_net, getnet, path_from, path_of, getpath, add_all, getifs, ifadmin, is_enabled, read_admin,
  allowed, put_admin, save_admin, set_link, set_links, with_ifaces, ifupdown, act, transform,
  command_of, read_operands, read_options as read_options_of_net_command, run_operands,
  main as main_of_net_command,
}

unfoldable pub text_run : ℕ
unfolding show_onto show_nat show_int show_two rindex strlcpy read_digits skip_space read_prefixed
    read_signed strtoll strtol_10 to_bracket split_last ◌>>=◌ ◌+ℤ◌
text_run = 0

unfoldable pub helpers_run : ℕ
unfolding fexistf popenf open_file vreadllf readllf readdf writedf writesf
helpers_run = 0

unfoldable pub lyx_run : ℕ
unfolding lydx_get_mattr find_op lydx_get_op lydx_get_diff find_name lydx_get_sibling lydx_get_child
    descend lydx_get_descendant lydx_get_attr lydx_get_cattr lydx_is_enabled lydx_get_vattrf
    lydx_get_attrf
lyx_run = 0

unfoldable pub srx_run : ℕ
unfolding srx_get_diff srx_set_item srx_set_str pick srx_vaget get_vabool srx_get_bool srx_enabled
    to_int int_of srx_get_int srx_get_str srx_vnitems srx_nitems
srx_run = 0

unfoldable pub dagger_run : ℕ
unfolding interpreter put_header kept prepare dagger_fopen dagger_fopen_next dagger_fopen_current
    dagger_add_dep dagger_add_node finish_claim dagger_abandon dagger_evolve
    dagger_evolve_or_abandon dagger_skip_iface dagger_should_skip claim_next claim_current
    claim_opened dagger_claim
dagger_run = 0

unfoldable pub infer_run : ℕ
unfolding link_is_phys read_link iface_is_phys iface_xpath set_veth_peer infer_veth_named
    infer_veth_typed ifchange_cand_infer_veth set_if_missing set_vlan infer_vlan_split
    infer_vlan_named infer_vlan_typed ifchange_cand_infer_vlan type_by_name infer_type_named
    infer_type_typed ifchange_cand_infer_type infer_change infer_changes infer_all ifchange_cand
infer_run = 0

unfoldable pub addresses_run : ℕ
unfolding is_std_lo_addr is_create is_delete is_replace add_address change_address address_parts
    netdag_gen_diff_addr each netdag_gen_diff_addrs set_conf_addr netdag_set_conf_addrs is_off flush
    netdag_gen_ip_addrs
addresses_run = 0

unfoldable pub autoconf_run : ℕ
unfolding reload_script netdag_exit_reload choose_autoconf put_autoconf netdag_gen_ipv6_autoconf
    zeroconf_up zeroconf_down set_zeroconf netdag_gen_ipv4_autoconf put_sysctl open_sysctl
    netdag_gen_sysctl_bool close_sysctl sysctl_ipv6 netdag_gen_sysctl
autoconf_run = 0

unfoldable pub links_run : ℕ
unfolding veth_with veth_at netdag_gen_veth put_vlan_id put_vlan vlan_tagged netdag_gen_vlan
    fwd_mask mask_of netdag_get_bridge_fwd_mask put_bridge netdag_set_bridge netdag_gen_afspec_add
    netdag_gen_afspec_set links_at netdag_bridge_links netdag_must_del
links_run = 0

unfoldable pub iface_run : ℕ
unfolding ◌then_do◌ put_exit netdag_gen_iface_del as_created put_up put gen_init with_init gen_next
    gen_by_op netdag_gen_iface
iface_run = 0

unfoldable pub change_run : ℕ
unfolding add_node netdag_init find_iface gen_iface gen_all build_diff build build_claimed ifchange
change_run = 0

unfoldable pub dhcp_run : ℕ
unfolding put_client add del find_client set_client change_client change_clients change_from
    change_all client_change
dhcp_run = 0

unfoldable pub core_run : ℕ
unfolding core_hook_prio core_startup_save core_pre_hook reload hook_done core_post_hook
core_run = 0

unfoldable pub core_start_run : ℕ
unfolding add_hooks register_change register register_all ietf_interfaces_init ietf_system_init
    infix_dhcp_init undo init_dhcp init_system init_interfaces init_augeas start_candidate
    start_sessions sr_plugin_init_cb sr_plugin_cleanup_cb
core_start_run = 0

unfoldable pub users_run : ℕ
unfolding is_valid_username sys_del_user sys_add_new_user set_password update_password password_op
    passwd_update_at handle_sr_passwd_update user_check_at check_sr_user_update with_user user_op
    handle_sr_user_update
users_run = 0

unfoldable pub clock_run : ℕ
unfolding write_timezone stage_timezone stage_clock change_clock
clock_run = 0

unfoldable pub net_run : ℕ
unfolding addif findif freeifs has_line save_line save_in savedep pipe_of pipep copy_lines copy_from
    pipeit run_with run dir_filter
net_run = 0

unfoldable pub net_deps_run : ℕ
unfolding go_on visit_at visit_all no_action run_action act_on finish deps iter_all close_pipe iter
net_deps_run = 0

unfoldable pub net_generation_run : ℕ
unfolding load_line load_from load_gen save_to save_gen save_rdeps run_all rdeps_from rdeps
    deactivate activate remove_next commit finish_next activate_from leave_current take_next
    activate_piped open_bridge activate_next
net_generation_run = 0

unfoldable pub klinfix_run : ℕ
unfolding klix_ds_from_str leave copy_in_session copy_connected copy_between copy_named klix_copy
    commit_in_session commit_connected klix_commit kplugin_klinfix_fini kplugin_klinfix_init
klinfix_run = 0

unfoldable pub factory_run : ℕ
unfolding read_raw set_raw rawgetch yorn run_of_factory read_options confirm reboot_if schedule
    reset start_reset main_from main
factory_run = 0

unfoldable pub systemv_run : ℕ
unfolding exit_code fsystemv systemv close_if systemv_silent
systemv_run = 0

unfoldable pub hostname_run : ℕ
unfolding put_motd change_motd sys_reload_services rename_host rename_hosts activate_host set_host
    change_hostname
hostname_run = 0

unfoldable pub ntp_run : ℕ
unfolding put_if put_port put_server put_servers put_settings is_valid write_chrony stage_servers
    stage_ntp restart_chrony change_ntp
ntp_run = 0

unfoldable pub dns_run : ℕ
unfolding put_number put_options put_each put_search put_nameserver put_nameservers write_servers
    write_search write_resolv close_resolv stage_resolv stage_dns update_resolv change_dns
dns_run = 0

unfoldable pub osrelease_run : ℕ
unfolding skip_quotes cut_quote strip_quotes after_equals setvar drop_last read_info read_lines
    read_release open_release os_init platform_nodes platform_cb
osrelease_run = 0

unfoldable pub modules_run : ℕ
unfolding enable_features srx_require_module srx_require_modules
modules_run = 0

unfoldable pub statd_run : ℕ
unfolding lower_in to_lowercase read_links get_ip_link_json add_status add_index add_ip_link_data
    add_single add_ip_link subscribe subscribe_all subscribe_items reg_iface_handlers iface_cb
    start_oper sr_plugin_init_cb_of_statd
statd_run = 0

unfoldable pub staged_run : ℕ
unfolding install
staged_run = 0

unfoldable pub changes_run : ℕ
unfolding sr_change_iter
changes_run = 0

unfoldable pub auth_run : ℕ
unfolding lyx_list_is_empty put_keys write_keys user_keys all_keys keys_in generate_auth_keys
    change_auth_check save_auth update_passwords load_users change_auth_done change_auth
auth_run = 0

unfoldable pub datetime_run : ℕ
unfolding insert_colon format_zone fmtime boot_time clock_cb rpc_exec remove_colon read_format
    set_time rpc_set_datetime
datetime_run = 0

unfoldable pub build_run : ℕ
unfolding lydx_new_path
build_run = 0

unfoldable pub net_command_run : ℕ
unfolding make_net getnet path_from path_of getpath add_all getifs ifadmin is_enabled read_admin
    allowed put_admin save_admin set_link set_links with_ifaces ifupdown act transform command_of
    read_operands read_options_of_net_command run_operands main_of_net_command
net_command_run = 0
