-- ===== src/Protocol/Constants.antt =====
-- include/joyson_glove/protocol.hpp: the constants of the wire protocol and the hardware limits.
use joyson_glove_sdk.Prelude.{ℕ}

abbrev pub packet_header : ℕ
packet_header = 0xee

abbrev pub packet_tail : ℕ
packet_tail = 0x7e

-- `MODULE_ID`
abbrev pub board_id : ℕ
board_id = 0x01

abbrev pub target_motor : ℕ
target_motor = 0x01

abbrev pub target_encoder : ℕ
target_encoder = 0x02

abbrev pub target_imu : ℕ
target_imu = 0x03

abbrev pub cmd_read_motor_id : ℕ
cmd_read_motor_id = 0x10

abbrev pub cmd_read_status : ℕ
cmd_read_status = 0x20

abbrev pub cmd_set_mode : ℕ
cmd_set_mode = 0x30

abbrev pub cmd_set_position : ℕ
cmd_set_position = 0x31

abbrev pub cmd_set_speed : ℕ
cmd_set_speed = 0x32

abbrev pub cmd_set_force : ℕ
cmd_set_force = 0x33

abbrev pub motor_header_req_1 : ℕ
motor_header_req_1 = 0x55

abbrev pub motor_header_req_2 : ℕ
motor_header_req_2 = 0xaa

abbrev pub motor_header_resp_1 : ℕ
motor_header_resp_1 = 0xaa

abbrev pub motor_header_resp_2 : ℕ
motor_header_resp_2 = 0x55

abbrev pub motor_instr_read_reg : ℕ
motor_instr_read_reg = 0x31

abbrev pub motor_instr_host_cmd : ℕ
motor_instr_host_cmd = 0x30

abbrev pub motor_instr_read_write : ℕ
motor_instr_read_write = 0x32

abbrev pub mode_position : ℕ
mode_position = 0x00

abbrev pub mode_force : ℕ
mode_force = 0x03

abbrev pub mode_speed_force : ℕ
mode_speed_force = 0x05

abbrev pub reg_motor_id : ℕ
reg_motor_id = 0x16

abbrev pub reg_mode : ℕ
reg_mode = 0x25

abbrev pub reg_force : ℕ
reg_force = 0x27

abbrev pub reg_speed : ℕ
reg_speed = 0x28

abbrev pub reg_position : ℕ
reg_position = 0x29

abbrev pub num_motors : ℕ
num_motors = 6

abbrev pub num_encoder_channels : ℕ
num_encoder_channels = 16

abbrev pub motor_position_max : ℕ
motor_position_max = 2000

abbrev pub motor_force_max : ℕ
motor_force_max = 4095
