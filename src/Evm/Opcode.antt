-- ===== src/Evm/Opcode.antt =====
-- codegen/src/evm/opcodes.rs: the EVM opcodes that the code generator knows, and their bytes.
-- A constructor is the source's name in lower case, but `modulo` for `MOD` (a reserved word).
pub mod Select
pub mod Ranges
pub mod Roundtrip
use merak.Prelude.{ℕ}

pub data Opcode : Type 0 where
  stop add mul sub div sdiv modulo smod addmod mulmod exp signextend : Opcode
  lt gt slt sgt eq iszero and or xor not byte shl shr sar : Opcode
  sha3 : Opcode
  address balance origin caller callvalue calldataload calldatasize calldatacopy : Opcode
  codesize codecopy gasprice extcodesize extcodecopy returndatasize returndatacopy : Opcode
  extcodehash : Opcode
  blockhash coinbase timestamp number difficulty gaslimit chainid selfbalance basefee : Opcode
  pop mload mstore mstore8 sload sstore jump jumpi pc msize gas jumpdest : Opcode
  push1 push2 push3 push4 push5 push6 push7 push8 push9 push10 push11 push12 push13 : Opcode
  push14 push15 push16 : Opcode
  push17 push18 push19 push20 push21 push22 push23 push24 push25 push26 push27 push28 : Opcode
  push29 push30 push31 push32 : Opcode
  dup1 dup2 dup3 dup4 dup5 dup6 dup7 dup8 dup9 dup10 dup11 dup12 dup13 dup14 dup15 : Opcode
  dup16 : Opcode
  swap1 swap2 swap3 swap4 swap5 swap6 swap7 swap8 swap9 swap10 swap11 swap12 swap13 : Opcode
  swap14 swap15 swap16 : Opcode
  log0 log1 log2 log3 log4 : Opcode
  create call callcode return delegatecall create2 staticcall revert invalid : Opcode
  selfdestruct : Opcode

-- `Opcode::encode`
unfoldable pub encode : Opcode → ℕ
encode stop = 0x00
encode add = 0x01
encode mul = 0x02
encode sub = 0x03
encode div = 0x04
encode sdiv = 0x05
encode modulo = 0x06
encode smod = 0x07
encode addmod = 0x08
encode mulmod = 0x09
encode exp = 0x0a
encode signextend = 0x0b
encode lt = 0x10
encode gt = 0x11
encode slt = 0x12
encode sgt = 0x13
encode eq = 0x14
encode iszero = 0x15
encode and = 0x16
encode or = 0x17
encode xor = 0x18
encode not = 0x19
encode byte = 0x1a
encode shl = 0x1b
encode shr = 0x1c
encode sar = 0x1d
encode sha3 = 0x20
encode address = 0x30
encode balance = 0x31
encode origin = 0x32
encode caller = 0x33
encode callvalue = 0x34
encode calldataload = 0x35
encode calldatasize = 0x36
encode calldatacopy = 0x37
encode codesize = 0x38
encode codecopy = 0x39
encode gasprice = 0x3a
encode extcodesize = 0x3b
encode extcodecopy = 0x3c
encode returndatasize = 0x3d
encode returndatacopy = 0x3e
encode extcodehash = 0x3f
encode blockhash = 0x40
encode coinbase = 0x41
encode timestamp = 0x42
encode number = 0x43
encode difficulty = 0x44
encode gaslimit = 0x45
encode chainid = 0x46
encode selfbalance = 0x47
encode basefee = 0x48
encode pop = 0x50
encode mload = 0x51
encode mstore = 0x52
encode mstore8 = 0x53
encode sload = 0x54
encode sstore = 0x55
encode jump = 0x56
encode jumpi = 0x57
encode pc = 0x58
encode msize = 0x59
encode gas = 0x5a
encode jumpdest = 0x5b
encode push1 = 0x60
encode push2 = 0x61
encode push3 = 0x62
encode push4 = 0x63
encode push5 = 0x64
encode push6 = 0x65
encode push7 = 0x66
encode push8 = 0x67
encode push9 = 0x68
encode push10 = 0x69
encode push11 = 0x6a
encode push12 = 0x6b
encode push13 = 0x6c
encode push14 = 0x6d
encode push15 = 0x6e
encode push16 = 0x6f
encode push17 = 0x70
encode push18 = 0x71
encode push19 = 0x72
encode push20 = 0x73
encode push21 = 0x74
encode push22 = 0x75
encode push23 = 0x76
encode push24 = 0x77
encode push25 = 0x78
encode push26 = 0x79
encode push27 = 0x7a
encode push28 = 0x7b
encode push29 = 0x7c
encode push30 = 0x7d
encode push31 = 0x7e
encode push32 = 0x7f
encode dup1 = 0x80
encode dup2 = 0x81
encode dup3 = 0x82
encode dup4 = 0x83
encode dup5 = 0x84
encode dup6 = 0x85
encode dup7 = 0x86
encode dup8 = 0x87
encode dup9 = 0x88
encode dup10 = 0x89
encode dup11 = 0x8a
encode dup12 = 0x8b
encode dup13 = 0x8c
encode dup14 = 0x8d
encode dup15 = 0x8e
encode dup16 = 0x8f
encode swap1 = 0x90
encode swap2 = 0x91
encode swap3 = 0x92
encode swap4 = 0x93
encode swap5 = 0x94
encode swap6 = 0x95
encode swap7 = 0x96
encode swap8 = 0x97
encode swap9 = 0x98
encode swap10 = 0x99
encode swap11 = 0x9a
encode swap12 = 0x9b
encode swap13 = 0x9c
encode swap14 = 0x9d
encode swap15 = 0x9e
encode swap16 = 0x9f
encode log0 = 0xa0
encode log1 = 0xa1
encode log2 = 0xa2
encode log3 = 0xa3
encode log4 = 0xa4
encode create = 0xf0
encode call = 0xf1
encode callcode = 0xf2
encode return = 0xf3
encode delegatecall = 0xf4
encode create2 = 0xf5
encode staticcall = 0xfa
encode revert = 0xfd
encode invalid = 0xfe
encode selfdestruct = 0xff
