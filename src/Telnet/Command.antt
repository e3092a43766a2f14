-- ===== src/Telnet/Command.antt =====
-- tn5250/telnet/commands.h and options.h: Telnet commands and options, by their codes. DO is
-- `do_command`, since `do` is a keyword.
use protocol_tn.Base.{ℕ, Bool, ◌||◌, ◌==◌}

abbrev pub eor : ℕ
eor = 239

abbrev pub se : ℕ
se = 240

abbrev pub nop : ℕ
nop = 241

abbrev pub dm : ℕ
dm = 242

abbrev pub brk : ℕ
brk = 243

abbrev pub ip : ℕ
ip = 244

abbrev pub ao : ℕ
ao = 245

abbrev pub ayt : ℕ
ayt = 246

abbrev pub ec : ℕ
ec = 247

abbrev pub el : ℕ
el = 248

abbrev pub ga : ℕ
ga = 249

abbrev pub sb : ℕ
sb = 250

abbrev pub will : ℕ
will = 251

abbrev pub wont : ℕ
wont = 252

abbrev pub do_command : ℕ
do_command = 253

abbrev pub dont : ℕ
dont = 254

abbrev pub iac : ℕ
iac = 255

abbrev pub transmit_binary : ℕ
transmit_binary = 0

abbrev pub echo : ℕ
echo = 1

abbrev pub reconnection : ℕ
reconnection = 2

abbrev pub suppress_go_ahead : ℕ
suppress_go_ahead = 3

abbrev pub approx_message_size_negotiation : ℕ
approx_message_size_negotiation = 4

abbrev pub status : ℕ
status = 5

abbrev pub timing_mark : ℕ
timing_mark = 6

abbrev pub remote_controlled_trans_echo : ℕ
remote_controlled_trans_echo = 7

abbrev pub output_line_width : ℕ
output_line_width = 8

abbrev pub output_page_size : ℕ
output_page_size = 9

abbrev pub output_cr_disposition : ℕ
output_cr_disposition = 10

abbrev pub output_horizontal_tab_stops : ℕ
output_horizontal_tab_stops = 11

abbrev pub output_horizontal_tab_disposition : ℕ
output_horizontal_tab_disposition = 12

abbrev pub output_formfeed_disposition : ℕ
output_formfeed_disposition = 13

abbrev pub output_vertical_tabstops : ℕ
output_vertical_tabstops = 14

abbrev pub output_vertical_tab_disposition : ℕ
output_vertical_tab_disposition = 15

abbrev pub output_linefeed_disposition : ℕ
output_linefeed_disposition = 16

abbrev pub extended_ascii : ℕ
extended_ascii = 17

abbrev pub logout : ℕ
logout = 18

abbrev pub byte_macro : ℕ
byte_macro = 19

abbrev pub data_entry_terminal : ℕ
data_entry_terminal = 20

abbrev pub supdup : ℕ
supdup = 21

abbrev pub supdup_output : ℕ
supdup_output = 22

abbrev pub send_location : ℕ
send_location = 23

abbrev pub terminal_type : ℕ
terminal_type = 24

abbrev pub end_of_record : ℕ
end_of_record = 25

abbrev pub tacacs_user_identification : ℕ
tacacs_user_identification = 26

abbrev pub output_marking : ℕ
output_marking = 27

abbrev pub terminal_location_number : ℕ
terminal_location_number = 28

abbrev pub telnet_3270_regime : ℕ
telnet_3270_regime = 29

abbrev pub x3_pad : ℕ
x3_pad = 30

abbrev pub negotiate_about_window_size : ℕ
negotiate_about_window_size = 31

abbrev pub terminal_speed : ℕ
terminal_speed = 32

abbrev pub remote_flow_control : ℕ
remote_flow_control = 33

abbrev pub linemode : ℕ
linemode = 34

abbrev pub x_display_location : ℕ
x_display_location = 35

abbrev pub environment : ℕ
environment = 36

abbrev pub authentication : ℕ
authentication = 37

abbrev pub encryption : ℕ
encryption = 38

abbrev pub new_environ : ℕ
new_environ = 39

abbrev pub tn3270e : ℕ
tn3270e = 40

abbrev pub xauth : ℕ
xauth = 41

abbrev pub charset : ℕ
charset = 42

abbrev pub telnet_remote_serial_port : ℕ
telnet_remote_serial_port = 43

abbrev pub com_port_control : ℕ
com_port_control = 44

abbrev pub telnet_suppress_local_echo : ℕ
telnet_suppress_local_echo = 45

abbrev pub telnet_start_tls : ℕ
telnet_start_tls = 46

abbrev pub kermit : ℕ
kermit = 47

abbrev pub send_url : ℕ
send_url = 48

abbrev pub forward_x : ℕ
forward_x = 49

abbrev pub telopt_pragma_logon : ℕ
telopt_pragma_logon = 138

abbrev pub telopt_sspi_logon : ℕ
telopt_sspi_logon = 139

abbrev pub telopt_pragma_heartbeat : ℕ
telopt_pragma_heartbeat = 140

abbrev pub extended_options_list : ℕ
extended_options_list = 255

-- The cases of the switch.

abbrev pub is_standalone_telnet_command : ℕ → Bool
is_standalone_telnet_command b =
    (b == eor)
    || (b == se)
    || (b == nop)
    || (b == dm)
    || (b == brk)
    || (b == ip)
    || (b == ao)
    || (b == ayt)
    || (b == ec)
    || (b == el)
    || (b == ga)

abbrev pub is_telnet_command : ℕ → Bool
is_telnet_command b =
    is_standalone_telnet_command b
    || (b == sb)
    || (b == will)
    || (b == wont)
    || (b == do_command)
    || (b == dont)
    || (b == iac)
