-- ===== src/Node/Receiving.antt =====

