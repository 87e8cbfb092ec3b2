-- ===== src/InterfaceGroup.antt =====
-- src/interface_group_operator.c: the program around the interfaces of a node.
pub mod Supervisor
pub mod Start
pub mod Input
pub mod Params
